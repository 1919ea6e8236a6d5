-- ===== src/Protocol/Sums.antt =====
-- The parts of a request as sums over the groups of the database.
use cip_pir.Base.{ℕ, ◌+◌, ◌-◌, ◌≤◌, ◌<◌, ◌≡◌, ap, ap₂, ◌∙◌, sym, bit_xor}
use cip_pir.Base.{List, Bool, arith, if◌then◌else◌, ◌⊎◌}
use cip_pir.Base.Memory.{Buffer, advance, IsBytes}
use cip_pir.Base.Sum.{xsum, xsum-ext, xsum-xor, xsum_window}
use cip_pir.Base.Xor.{byte-xor-lt}
use cip_pir.Config.{Config, IsConfig, groups}
use cip_pir.Chunks.{server_map}
use cip_pir.Kernels.Groups.{entry}
use cip_pir.Walk.Laws.{before, before-suc}
use cip_pir.Tables.{IsTable, combination, combination-zero, combination-xor}
use cip_pir.Server
use cip_pir.Server.{Crypto, DbFile, precompute_block, execute}
use cip_pir.Server.Database.{Holds}
use cip_pir.Server.Answers.{rest_right, precompute_block_lem}
use cip_pir.Client
use cip_pir.Client.{Client, handle_seed}
use cip_pir.Client.Query.{
  seed_query, right_bytes, left_bytes, contribution, groups_right_agree, groups_left_agree,
  counted-le,
}

-- What `n` query bytes select, all groups together.
abbrev pub total : (ℕ → Buffer) → ℕ → Buffer → ℕ → ℕ
total blocks n query j = xsum n (λ g. combination blocks g (query g) j)

pub total-xor :
    (blocks : ℕ → Buffer) (n : ℕ) (p q : Buffer) (j : ℕ)
    → total blocks n (λ g. bit_xor (p g) (q g)) j
      ≡ bit_xor (total blocks n p j) (total blocks n q j)
total-xor blocks n p q j =
    xsum-ext n _ _ (λ g h. combination-xor blocks g (p g) (q g) j) ∙ xsum-xor n _ _

-- A query that is zero outside a window.
total_window :
    (blocks : ℕ → Buffer) (n lo m : ℕ) (query part : Buffer) (j : ℕ)
    → lo + m ≤ n
    → ((g : ℕ) → (g < lo) ⊎ (lo + m ≤ g) → query g ≡ 0)
    → ((t : ℕ) → t < m → query (lo + t) ≡ part t)
    → total blocks n query j ≡ xsum m (λ t. combination blocks (lo + t) (part t) j)
total_window blocks n lo m query part j fits outside inside =
    xsum_window n lo m _ fits
      (λ g h. ap (λ w. combination blocks g w j) (outside g h) ∙ combination-zero blocks g j)
    ∙ xsum-ext m _ _ (λ t h. ap (λ w. combination blocks (lo + t) w j) (inside t h))

module _ (c : Config) (v : IsConfig c) (id : ℕ) (id_in : id < c.servers) (k : Crypto)
    (seed : List ℕ) (blocks : ℕ → Buffer) where
  abbrev query : Buffer
  query = seed_query c id k seed

  right_total :
      (j : ℕ)
      → total blocks (groups c) (right_bytes c id query) j
        ≡ xsum
            (Client.groups_right c id).0
            (λ t. combination blocks (before (server_map c) (id + 1) + t) (query t) j)
  right_total j =
      total_window blocks (groups c) (before (server_map c) (id + 1)) (Client.groups_right c id).0
        (right_bytes c id query) query j (counted-le c v id id_in).1 (λ g h. ground arith)
        (λ t h.
          let back : before (server_map c) (id + 1) + t - before (server_map c) (id + 1) ≡ t =
            omega arith in
          ground (arith, ap query back))

  left_total :
      (j : ℕ)
      → total blocks (groups c) (left_bytes c id query) j
        ≡ xsum
            (Client.groups_left c id)
            (λ t. combination blocks t (query ((Client.groups_right c id).0 + t)) j)
  left_total j =
      total_window blocks (groups c) 0 (Client.groups_left c id) (left_bytes c id query)
        (λ t. query ((Client.groups_right c id).0 + t)) j fits (λ g h. ground arith)
        (λ t h. ap (left_bytes c id query) (zero_add t) ∙ ground arith)
      ∙ xsum-ext (Client.groups_left c id) _ _ (λ t h.
        ap (λ g. combination blocks g (query ((Client.groups_right c id).0 + t)) j) (zero_add t))
    where
      zero_add : (n : ℕ) → 0 + n ≡ n
      zero_add n = omega arith

      fits : 0 + Client.groups_left c id ≤ groups c
      fits = omega (arith, counted-le c v id id_in, before-suc (server_map c) id)

  total-contribution :
      (j : ℕ)
      → total blocks (groups c) (contribution c id k seed) j
        ≡ bit_xor
            (xsum
              (Client.groups_right c id).0
              (λ t. combination blocks (before (server_map c) (id + 1) + t) (query t) j))
            (xsum
              (Client.groups_left c id)
              (λ t. combination blocks t (query ((Client.groups_right c id).0 + t)) j))
  total-contribution j =
      total-xor blocks (groups c) (right_bytes c id query) (left_bytes c id query) j
      ∙ ap₂ bit_xor (right_total j) (left_total j)

  pub contribution-lt : IsBytes (contribution c id k seed)
  contribution-lt g =
      byte-xor-lt _ _ (part-lt _ _ (k.gen_bytes seed _ _)) (part-lt _ _ (k.gen_bytes seed _ _))
    where
      part-lt : (b : Bool) (x : ℕ) → x < 256 → (if b then x else 0) < 256
      part-lt b x h = ground arith

  module _ (f : DbFile) (fe_size : ℕ) {db key : Buffer} (held : Holds c v id id_in f fe_size db key)
      (preprocessed : IsTable c (advance f.body (1 + fe_size + fe_size)) blocks) where
    abbrev table : Buffer
    table = advance f.body (1 + fe_size + fe_size)

    rest_right-eq : rest_right c v id id_in ≡ (Client.groups_right c id).0
    rest_right-eq = omega (arith, groups_right_agree c v id id_in)

    left-eq : Server.groups_left c id ≡ Client.groups_left c id
    left-eq = sym (groups_left_agree c v id id_in)

    query-eq : k.gen_rnd_from_seed seed (rest_right c v id id_in + Server.groups_left c id) ≡ query
    query-eq = ap (k.gen_rnd_from_seed seed) (omega (arith, rest_right-eq, left-eq))

    -- The block that a server precomputes for a seed is what the client's share of the query would
    -- select from the whole database.
    pub precompute_block-total :
        (j : ℕ)
        → j < c.block_size
        → precompute_block c k db id seed j ≡ total blocks (groups c) (contribution c id k seed) j
    precompute_block-total j h =
        precompute_block_lem c v id id_in f fe_size held k seed j h
        ∙ rw (query-eq, rest_right-eq, left-eq)
            (ap₂ bit_xor (xsum-ext _ _ _ right) (xsum-ext _ _ _ left))
        ∙ sym (total-contribution j)
      where
        right :
            (t : ℕ)
            → t < (Client.groups_right c id).0
            → entry c table (before (server_map c) (id + 1) + t) (query t) j
              ≡ combination blocks (before (server_map c) (id + 1) + t) (query t) j
        right t p =
            preprocessed.entries _ (query t) j (omega (arith, counted-le c v id id_in))
              (k.gen_bytes seed _ t) h

        left :
            (t : ℕ)
            → t < Client.groups_left c id
            → entry c table t (query ((Client.groups_right c id).0 + t)) j
              ≡ combination blocks t (query ((Client.groups_right c id).0 + t)) j
        left t p =
            preprocessed.entries t _ j
              (omega (arith, counted-le c v id id_in, before-suc (server_map c) id))
              (k.gen_bytes seed _ _) h
