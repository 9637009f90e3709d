-- ===== src/Pool/Order.antt =====
-- The lists of one source: their nonces ascend, and no two are equal.
use zvchain.Base.{
  ℕ, suc, ◌<◌, ◌≡◌, refl, Bool-cases, none, some, List, [], ◌∷◌, length, ==_iff, inl, inr, arith,
}
use zvchain.Stake.Types.{Address}
use zvchain.Pool.Pending.{Item, same_slot, find, place, without}

abbrev pub Above : ℕ → List Item → Type 0
Above n [] = Unit {0}
Above n (u ∷ us) = (n < u.nonce) × Above u.nonce us

abbrev pub Ascending : List Item → Type 0
Ascending [] = Unit {0}
Ascending (u ∷ us) = Above u.nonce us

abbrev pub AllFrom : Address → List Item → Type 0
AllFrom a [] = Unit {0}
AllFrom a (u ∷ us) = (u.source ≡ a) × AllFrom a us

Above-weaken : (m n : ℕ) (us : List Item) → m < n → Above n us → Above m us
Above-weaken m n [] l h = tt
Above-weaken m n (u ∷ us) l h = (omega (arith, l, h.0), h.1)

place-Above : (n : ℕ) (t : Item) (us : List Item) → n < t.nonce → Above n us → Above n (place t us)
unfolding place
place-Above n t [] l h = (l, tt)
place-Above n t (u ∷ us) l h = ground (arith, place-Above u.nonce t us)

pub place-Ascending : (t : Item) (us : List Item) → Ascending us → Ascending (place t us)
unfolding place
place-Ascending t [] h = tt
place-Ascending t (u ∷ us) h = ground (arith, place-Above u.nonce t us)

without-Above : (n : ℕ) (t : Item) (us : List Item) → Above n us → Above n (without t us)
unfolding without
without-Above n t [] h = tt
without-Above n t (u ∷ us) h = ground (arith, without-Above u.nonce t us, Above-weaken n u.nonce us)

pub without-Ascending : (t : Item) (us : List Item) → Ascending us → Ascending (without t us)
unfolding without
without-Ascending t [] h = tt
without-Ascending t (u ∷ []) h = ground arith
without-Ascending t (u ∷ v ∷ us) h = ground (arith, without-Above u.nonce t (v ∷ us))

pub place-AllFrom :
    (a : Address) (t : Item) (us : List Item) → t.source ≡ a → AllFrom a us → AllFrom a (place t us)
unfolding place
place-AllFrom a t [] e h = (e, tt)
place-AllFrom a t (u ∷ us) e h = ground (arith, place-AllFrom a t us)

pub without-AllFrom :
    (a : Address) (t : Item) (us : List Item) → AllFrom a us → AllFrom a (without t us)
unfolding without
without-AllFrom a t [] h = tt
without-AllFrom a t (u ∷ us) h = ground (arith, without-AllFrom a t us)

pub length-place_new :
    (t : Item) (us : List Item) → find t us ≡ none → length (place t us) ≡ suc (length us)
unfolding place find
length-place_new t [] h = refl
length-place_new t (u ∷ us) h = ground (arith, length-place_new t us)

pub length-without :
    (t u : Item) (us : List Item) → find t us ≡ some u → suc (length (without t us)) ≡ length us
unfolding without find
length-without t u [] h = absurd (ground (arith, h))
length-without t u (v ∷ us) h = ground (arith, length-without t u us)

pub length-without_absent :
    (t : Item) (us : List Item) → find t us ≡ none → length (without t us) ≡ length us
unfolding without find
length-without_absent t [] h = refl
length-without_absent t (v ∷ us) h = ground (arith, length-without_absent t us)

pub find-nonce : (t u : Item) (us : List Item) → find t us ≡ some u → u.nonce ≡ t.nonce
unfolding find
find-nonce t u [] h = absurd (ground (arith, h))
find-nonce t u (v ∷ us) h = ground (arith, find-nonce t u us, ==_iff t.nonce v.nonce)

find-Above : (t : Item) (us : List Item) → Above t.nonce us → find t us ≡ none
unfolding find
find-Above t [] h = refl
find-Above t (u ∷ us) h =
    ground (arith, find-Above t us (Above-weaken t.nonce u.nonce us h.0 h.1), h.0)

-- Only the nonce of the wanted transaction counts.
pub find_same : (t u : Item) (us : List Item) → t.nonce ≡ u.nonce → find t us ≡ find u us
unfolding find
find_same t u [] e = refl
find_same t u (v ∷ us) e = ground (arith, find_same t u us)

tail-Ascending : (u : Item) (us : List Item) → Above u.nonce us → Ascending us
tail-Ascending u [] h = tt
tail-Ascending u (v ∷ us) h = h.1

pub find-without : (t : Item) (us : List Item) → Ascending us → find t (without t us) ≡ none
unfolding find without
find-without t [] h = refl
find-without t (u ∷ us) h = elim (Bool-cases (same_slot t u)) [
  | inl e ↦ rw e (find-Above t us (rw ((==_iff t.nonce u.nonce).0 e) h))
  | inr e ↦ rw (e, e) (find-without t us (tail-Ascending u us h))
]
