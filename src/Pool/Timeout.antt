-- ===== src/Pool/Timeout.antt =====
-- `evictTimeout`: which transactions stay in the index.
use zvchain.Base.{
  ℕ, ◌-◌, ◌≡◌, refl, ap, ◌∙◌, Bool-cases, Option, none, some, [], ◌∷◌, ltb, ◌==◌, ==_iff, inl, inr,
  if◌then◌else◌,
}
use zvchain.Base.Map.{Map, lookup, lookup-erase, Distinct, nat_key}
use zvchain.Pool.Pending.{Skips}
use zvchain.Pool.Container.{Timed, Container, remove_item, evict_timeout_loop, evict_timeout}

-- Every entry of the index stands under the hash of its transaction.
abbrev pub IsKeyed : Map ℕ Timed → Type 0
IsKeyed [] = Unit {0}
IsKeyed ((h, e) ∷ m) = (e.item.hash ≡ h) × IsKeyed m

-- What is kept where the entry seen is too old, or not.
abbrev pub unless_old : ℕ → ℕ → Option Timed → Option Timed → Option Timed
unless_old timeout now none kept = kept
unless_old timeout now (some e) kept = if ltb timeout (now - e.begin) then none else kept

module _ (k : Skips) where
  visited :
      (now h : ℕ) (e : Timed) (c : Container k)
      → lookup h (if ltb c.tx_timeout (now - e.begin) then remove_item k e.item c else c).txs ≡ (
          if h == e.item.hash
          then unless_old c.tx_timeout now (some e) (lookup h c.txs)
          else lookup h c.txs)
  unfolding remove_item
  visited now h e c = elim (Bool-cases (ltb c.tx_timeout (now - e.begin))) [
    | inl old ↦ rw old (lookup-erase h e.item.hash c.txs)
    | inr young ↦
        rw young (elim (Bool-cases (h == e.item.hash)) [ inl s ↦ rw s refl | inr n ↦ rw n refl ])
  ]

  visited-tx_timeout :
      (now : ℕ) (e : Timed) (c : Container k)
      → (if ltb c.tx_timeout (now - e.begin) then remove_item k e.item c else c).tx_timeout
        ≡ c.tx_timeout
  unfolding remove_item
  visited-tx_timeout now e c = elim (Bool-cases (ltb c.tx_timeout (now - e.begin))) [
    | inl old ↦ rw old refl
    | inr young ↦ rw young refl
  ]

  evict_timeout_loop-lookup :
      (now h timeout : ℕ) (left : Map ℕ Timed) (c : Container k)
      → Distinct left
      → IsKeyed left
      → c.tx_timeout ≡ timeout
      → lookup h (evict_timeout_loop k now left c).txs
        ≡ unless_old timeout now (lookup h left) (lookup h c.txs)
  unfolding evict_timeout_loop
  evict_timeout_loop-lookup now h timeout [] c d i t = refl
  evict_timeout_loop-lookup now h timeout ((j, e) ∷ left) c d i t =
      let rest =
        evict_timeout_loop-lookup now h timeout left
          (if ltb c.tx_timeout (now - e.begin) then remove_item k e.item c else c) d.1 i.1
          (visited-tx_timeout now e c ∙ t) in
      let here = visited now h e c in
      elim (Bool-cases (h == j)) [
        | inl s ↦
            let gone : lookup h left ≡ none = rw ((==_iff h j).0 s) d.0 in
            rw s (
              rest
              ∙ rw gone (here ∙ rw (ap (λ x. h == x) i.0 ∙ s) refl)
              ∙ ap (λ x. unless_old x now (some e) (lookup h c.txs)) t)
        | inr n ↦ rw n (
            rest
            ∙ ap (unless_old timeout now (lookup h left))
                (here ∙ rw (ap (λ x. h == x) i.0 ∙ n) refl))
      ]

  -- In an index with distinct keys, each the hash of its transaction, the entries that are older
  -- than the timeout are gone after an eviction, and all others are as they were.
  pub evict_timeout-lookup :
      (now h : ℕ) (c : Container k)
      → Distinct c.txs
      → IsKeyed c.txs
      → lookup h (evict_timeout k now c).txs
        ≡ unless_old c.tx_timeout now (lookup h c.txs) (lookup h c.txs)
  unfolding evict_timeout
  evict_timeout-lookup now h c d i = evict_timeout_loop-lookup now h c.tx_timeout c.txs c d i refl
