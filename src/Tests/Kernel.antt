-- ===== src/Tests/Kernel.antt =====
-- The sizes, the chunks and the kernels.
use cip_pir.Base.{
  ◌+◌, ◌*◌, ◌/◌, ◌≤◌, ◌<◌, ◌≡◌, refl, arith, [], ◌∷◌, if◌then◌else◌, ltb, bit_xor, at, length,
}
use cip_pir.Base.Sum.{sum}
use cip_pir.Config.{IsConfig, default_config, blocks, groups}
use cip_pir.Config.Sizes.{sizes_cover}
use cip_pir.Chunks.{server_map, client_map, client_query_size}
use cip_pir.Chunks.Laws.{server_map_even, client_agrees}
use cip_pir.Kernels.{VectorUnit, xor_full_blocks, xor_full_blocks_vector, fastxor}
use cip_pir.Kernels.Blocks.{vector-eq-plain}
use cip_pir.Kernels.Groups.{selected, fastxor_lem, fastxor_in_bounds}

default-IsConfig : IsConfig default_config
default-IsConfig = omega arith

default_sizes : (blocks default_config ≡ 7813) × (groups default_config ≡ 977)
default_sizes = (refl, refl)

default_map : client_map default_config ≡ (326 ∷ 326 ∷ 325 ∷ [], 977)
unfolding client_map
default_map = refl

sizes_cover_example :
    (8000000 ≤ blocks default_config * 1024)
    × (blocks default_config * 1024 < 8000000 + 1024)
    × (blocks default_config ≤ groups default_config * 8)
    × (groups default_config * 8 < blocks default_config + 8)
sizes_cover_example = sizes_cover default_config default-IsConfig

server_map_even_example :
    (length (server_map default_config) ≡ 3)
    × (sum 3 (at (server_map default_config)) ≡ groups default_config)
    × (groups default_config / 3 ≤ at (server_map default_config) 2)
    × (at (server_map default_config) 2 ≤ at (server_map default_config) 0)
    × (at (server_map default_config) 0 ≤ groups default_config / 3 + 1)
server_map_even_example =
    server_map_even default_config default-IsConfig 0 2 (omega arith) (omega arith)

client_agrees_example :
    (client_map default_config ≡ (server_map default_config, groups default_config))
    × (client_query_size default_config ≡ groups default_config)
client_agrees_example = client_agrees default_config default-IsConfig

-- Registers of three bytes.
abbrev toy_unit : VectorUnit
toy_unit = record {
  width = 3;
  width_pos = omega arith;
  xor_si = λ x y k. bit_xor (x k) (y k);
  xor_si_lane = λ x y k h. refl;
}

vector-eq-plain_example :
    xor_full_blocks_vector default_config toy_unit (λ i. i) (λ i. 7)
    ≡ xor_full_blocks default_config (λ i. i) (λ i. 7)
vector-eq-plain_example = vector-eq-plain default_config toy_unit (λ i. i) (λ i. 7)

fastxor_lem_example :
    fastxor default_config (λ i. 1) (λ o. o) (λ g. 3) 2 5
    ≡ bit_xor 1 (selected default_config (λ o. o) (λ g. 3) 2 5)
fastxor_lem_example = fastxor_lem default_config (λ i. 1) (λ o. o) (λ g. 3) 2 5 (omega arith)

fastxor_in_bounds_example :
    fastxor default_config (λ i. 1) (λ o. o) (λ g. 3) 2 5
    ≡ fastxor default_config
        (λ i. 1)
        (λ o. if ltb o 1000000 then o else 0)
        (λ g. if ltb g 2 then 3 else 9)
        2
        5
fastxor_in_bounds_example =
    fastxor_in_bounds default_config (λ i. 1) (λ o. o) (λ o. if ltb o 1000000 then o else 0)
      (λ g. 3) (λ g. if ltb g 2 then 3 else 9) 2 5 (λ g. omega arith) (λ o h. ground arith)
      (λ g h. ground arith)
