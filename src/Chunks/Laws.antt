-- ===== src/Chunks/Laws.antt =====
-- The chunks split the groups evenly, and both sides of the protocol agree on them.
use native.Mathlib.Nat.{div-add-mod', mod-lt, div-le_self}
use cip_pir.Base.{
  ℕ, zero, suc, ◌+◌, ◌-◌, ◌*◌, ◌/◌, ◌%◌, ◌^◌, ◌≤◌, ◌<◌, min, ◌≡◌, refl, ap, ap₂, ◌∙◌, sym, fun_ext,
}
use cip_pir.Base.{List, [], ◌∷◌, ◌++◌, arith, if◌then◌else◌, ltb, u32}
use cip_pir.Base.{length, length-append, at, at-append_left, at-append_right, dec_lt}
use cip_pir.Base.Sum.{sum, sum-add, sum-zero, sum-suc, sum-ext}
use cip_pir.Config.{Config, IsConfig, groups}
use cip_pir.Chunks.{
  server_chunk, server_map_from, server_map, client_chunk, client_map_from, client_map,
  client_query_size,
}

module _ (c : Config) where
  -- The groups of chunk `i`: an even share, and one more for the first chunks.
  abbrev pub share : ℕ → ℕ
  share i = groups c / c.servers + (if ltb i (groups c % c.servers) then 1 else 0)

  module _ (v : IsConfig c) where
    servers_pos : 0 < c.servers
    servers_pos = omega (arith, v.some_chunk, v.chunks_in)

    pub few : groups c / c.servers + 1 < 2 ^ 32
    few = omega (arith, v.small_groups, div-le_self (groups c) c.servers)

    few_extra : groups c % c.servers < 2 ^ 32
    few_extra = omega (arith, v.small_groups, div-add-mod' (groups c) c.servers)

    server_chunk-eq : (i : ℕ) → server_chunk c i ≡ share i
    unfolding server_chunk
    server_chunk-eq i = ground (arith, few, few_extra)

    client_chunk-eq : (i : ℕ) → client_chunk c i ≡ share i
    unfolding client_chunk
    client_chunk-eq i = ground (arith, few)

    share-lt : (i : ℕ) → share i < 2 ^ 32
    share-lt i = ground (arith, few)

  pub sum-share : (n : ℕ) → sum n share ≡ n * (groups c / c.servers) + min n (groups c % c.servers)
  sum-share zero = sum-zero _ ∙ omega arith
  sum-share (suc n) = sum-suc n _ ∙ ground (arith, sum-share n)

  pub sum-share-groups : IsConfig c → sum c.servers share ≡ groups c
  sum-share-groups v = omega (
    arith,
    sum-share c.servers,
    div-add-mod' (groups c) c.servers,
    mod-lt (groups c) (servers_pos v),
  )

-- A list grown at its end by the values of `f`.
grown : (f : ℕ → ℕ) (left i : ℕ) → List ℕ → List ℕ
grown f zero i acc = acc
grown f (suc left) i acc = grown f left (i + 1) (acc ++ f i ∷ [])

length-grown :
    (f : ℕ → ℕ) (left i : ℕ) (acc : List ℕ) → length (grown f left i acc) ≡ length acc + left
unfolding grown
length-grown f zero i acc = omega arith
length-grown f (suc left) i acc =
    omega (arith, length-grown f left (i + 1) (acc ++ f i ∷ []), length-append acc (f i ∷ []))

at-grown_old :
    (f : ℕ → ℕ) (left i : ℕ) (acc : List ℕ) (j : ℕ)
    → j < length acc
    → at (grown f left i acc) j ≡ at acc j
unfolding grown
at-grown_old f zero i acc j h = refl
at-grown_old f (suc left) i acc j h =
    at-grown_old f left (i + 1) (acc ++ f i ∷ []) j (omega (arith, length-append acc (f i ∷ [])))
    ∙ at-append_left acc (f i ∷ []) j h

at-grown :
    (f : ℕ → ℕ) (left i : ℕ) (acc : List ℕ) (j : ℕ)
    → length acc ≡ i
    → i ≤ j
    → j < i + left
    → at (grown f left i acc) j ≡ f j
unfolding grown
at-grown f zero i acc j e h k = absurd (omega arith)
at-grown f (suc left) i acc j e h k = elim (dec_lt i j) [
  | yes later ↦
      at-grown f left (i + 1) (acc ++ f i ∷ []) j (omega (arith, length-append acc (f i ∷ [])))
        (omega arith) (omega arith)
  | no this ↦
      let j_eq : j ≡ length acc + 0 = omega arith in
      let j_eq' : i ≡ j = omega arith in
      at-grown_old f left (i + 1) (acc ++ f i ∷ []) j (omega (arith, length-append acc (f i ∷ [])))
      ∙ ap (at (acc ++ f i ∷ [])) j_eq
      ∙ at-append_right acc (f i ∷ []) 0
      ∙ ap f j_eq'
]

server_map-grown :
    (c : Config) (left i : ℕ) (acc : List ℕ)
    → server_map_from c left i acc ≡ grown (server_chunk c) left i acc
unfolding server_map_from grown
server_map-grown c zero i acc = refl
server_map-grown c (suc left) i acc = server_map-grown c left (i + 1) (acc ++ server_chunk c i ∷ [])

client_map-grown :
    (c : Config) (left i : ℕ) (acc : List ℕ) (total : ℕ)
    → (client_map_from c left i acc total).0 ≡ grown (λ k. u32 (client_chunk c k)) left i acc
unfolding client_map_from grown
client_map-grown c zero i acc total = refl
client_map-grown c (suc left) i acc total =
    client_map-grown c left (i + 1) (acc ++ u32 (client_chunk c i) ∷ []) _

module _ (c : Config) (v : IsConfig c) where
  pub length-server_map : length (server_map c) ≡ c.servers
  unfolding server_map
  length-server_map =
      ap length (server_map-grown c c.servers 0 [])
      ∙ length-grown (server_chunk c) c.servers 0 []
      ∙ omega arith

  pub at-server_map : (i : ℕ) → i < c.servers → at (server_map c) i ≡ share c i
  unfolding server_map
  at-server_map i h =
      ap (λ m. at m i) (server_map-grown c c.servers 0 [])
      ∙ at-grown (server_chunk c) c.servers 0 [] i refl (omega arith) (omega arith)
      ∙ server_chunk-eq c v i

  pub sum-server_map : sum c.servers (at (server_map c)) ≡ groups c
  sum-server_map = sum-ext c.servers _ _ at-server_map ∙ sum-share-groups c v

  -- The servers' constructor makes one chunk for each server. The chunks hold all groups of the
  -- database. Each has its share to within one group, and none is larger than one before it.
  pub server_map_even :
      (i j : ℕ)
      → i ≤ j
      → j < c.servers
      → (length (server_map c) ≡ c.servers)
        × (sum c.servers (at (server_map c)) ≡ groups c)
        × (groups c / c.servers ≤ at (server_map c) j)
        × (at (server_map c) j ≤ at (server_map c) i)
        × (at (server_map c) i ≤ groups c / c.servers + 1)
  server_map_even i j h k =
      let at_i = at-server_map i (omega arith) in
      let at_j = at-server_map j k in
      (length-server_map, sum-server_map, ground arith, ground arith, ground arith)

  sum-share-le : (n : ℕ) → n ≤ c.servers → sum n (share c) ≤ groups c
  sum-share-le n h = omega (
    arith,
    sum-add n (c.servers - n) (share c),
    ap (λ k. sum k (share c)) all,
    sum-share-groups c v,
  )
    where
      all : n + (c.servers - n) ≡ c.servers
      all = omega arith

  client_total :
      (left i : ℕ) (acc : List ℕ) (total : ℕ)
      → i + left ≡ c.servers
      → total ≡ sum i (share c)
      → (client_map_from c left i acc total).1 ≡ sum c.servers (share c)
  unfolding client_map_from
  client_total zero i acc total e t = t ∙ ap (λ n. sum n (share c)) (omega arith)
  client_total (suc left) i acc total e t =
      let next : sum (suc i) (share c) ≡ sum i (share c) + share c i = sum-suc i (share c) in
      let fits = sum-share-le (suc i) (omega arith) in
      client_total left (i + 1) (acc ++ u32 (client_chunk c i) ∷ [])
        (u32 (total + client_chunk c i)) (omega arith)
        (omega (arith, client_chunk-eq c v i, v.small_groups, suc_sum))
    where
      suc_sum : sum (i + 1) (share c) ≡ sum (suc i) (share c)
      suc_sum = ap (λ n. sum n (share c)) (omega arith)

  -- The client's constructor computes the map of the servers. Its `totalgroups` is the number of
  -- groups of the database, and so is `querysize`.
  pub client_agrees : (client_map c ≡ (server_map c, groups c)) × (client_query_size c ≡ groups c)
  unfolding client_map server_map client_query_size
  client_agrees = (ap₂ (λ m t. (m, t)) maps total, omega (arith, total, v.small_groups))
    where
      maps : (client_map c).0 ≡ server_map c
      maps =
          client_map-grown c c.servers 0 [] 0
          ∙ ap (λ f. grown f c.servers 0 [])
              (fun_ext λ k.
                ap u32 (client_chunk-eq c v k)
                ∙ ground (arith, share-lt c v k)
                ∙ sym (server_chunk-eq c v k))
          ∙ sym (server_map-grown c c.servers 0 [])

      total : (client_map c).1 ≡ groups c
      total = client_total c.servers 0 [] 0 (omega arith) (sym (sum-zero _)) ∙ sum-share-groups c v
