-- ===== src/Transaction/Payload.antt =====
-- The payload of a stake: EncodePayload and DecodePayload of middleware/types/miner.go.
use zvchain.Base.{
  ℕ, zero, suc, ◌+◌, ◌≤◌, ◌≡◌, refl, sym, ap, ◌∙◌, ◌⊎◌, ◌↔◌, inl, inr, Bool-cases, false, not, ◌&&◌,
  Option, none, some, some-injective, List, [], ◌∷◌, ◌++◌, length, length-append, ◌==◌, ==_iff,
  arith, if◌then◌else◌,
}
use zvchain.Stake.Types.{MinerPks, pk_size, vrf_pk_size}

abbrev pub payload_version : ℕ
payload_version = 1

module _ {A : Type 0} where
  abbrev pub take : ℕ → List A → List A
  take zero xs = []
  take (suc n) [] = []
  take (suc n) (x ∷ xs) = x ∷ take n xs

  abbrev pub drop : ℕ → List A → List A
  drop zero xs = xs
  drop (suc n) [] = []
  drop (suc n) (x ∷ xs) = drop n xs

  take-append : (n : ℕ) (xs ys : List A) → length xs ≡ n → take n (xs ++ ys) ≡ xs
  take-append zero [] ys h = refl
  take-append zero (x ∷ xs) ys h = absurd (omega arith)
  take-append (suc n) [] ys h = absurd (omega arith)
  take-append (suc n) (x ∷ xs) ys h = ap (λ t. x ∷ t) (take-append n xs ys (omega arith))

  drop-append : (n : ℕ) (xs ys : List A) → length xs ≡ n → drop n (xs ++ ys) ≡ ys
  drop-append zero [] ys h = refl
  drop-append zero (x ∷ xs) ys h = absurd (omega arith)
  drop-append (suc n) [] ys h = absurd (omega arith)
  drop-append (suc n) (x ∷ xs) ys h = drop-append n xs ys (omega arith)

  take-append-drop : (n : ℕ) (xs : List A) → take n xs ++ drop n xs ≡ xs
  take-append-drop zero xs = refl
  take-append-drop (suc n) [] = refl
  take-append-drop (suc n) (x ∷ xs) = ap (λ t. x ∷ t) (take-append-drop n xs)

  length-take : (n : ℕ) (xs : List A) → n ≤ length xs → length (take n xs) ≡ n
  length-take zero xs h = refl
  length-take (suc n) [] h = absurd (omega arith)
  length-take (suc n) (x ∷ xs) h = omega (arith, length-take n xs (omega arith))

  length-drop : (n : ℕ) (xs : List A) → n ≤ length xs → length (drop n xs) + n ≡ length xs
  length-drop zero xs h = omega arith
  length-drop (suc n) [] h = absurd (omega arith)
  length-drop (suc n) (x ∷ xs) h = omega (arith, length-drop n xs (omega arith))

-- The keys are written if both are whole.
unfoldable pub encode_payload : MinerPks → List ℕ
encode_payload p =
    payload_version
    ∷ p.mtype
    ∷ (if length p.pk == pk_size && length p.vrf_pk == vrf_pk_size then p.pk ++ p.vrf_pk else [])

abbrev pub total_len : ℕ
total_len = 2 + pk_size + vrf_pk_size

decode_body : List ℕ → Option MinerPks
decode_body (version ∷ mtype ∷ rest) =
    if not (version == payload_version)
    then none
    else some (
        if 2 + length rest == total_len
        then record { mtype = mtype; pk = take pk_size rest; vrf_pk = drop pk_size rest }
        else record { mtype = mtype; pk = []; vrf_pk = [] })
decode_body _ = none

unfoldable pub decode_payload : List ℕ → Option MinerPks
unfolding decode_body
decode_payload bs =
    if not (length bs == 2) && not (length bs == total_len) then none else decode_body bs

-- Keys as a payload holds them: both whole, or none.
abbrev pub IsWhole : MinerPks → Type 0
IsWhole p =
    ((length p.pk ≡ pk_size) × (length p.vrf_pk ≡ vrf_pk_size)) ⊎ ((p.pk ≡ []) × (p.vrf_pk ≡ []))

no_items : {A : Type 0} (xs : List A) → length xs ≡ 0 → xs ≡ []
no_items [] h = refl
no_items (x ∷ xs) h = absurd (omega arith)

decode_long :
    (mtype : ℕ) (rest : List ℕ)
    → length rest ≡ pk_size + vrf_pk_size
    → decode_payload (payload_version ∷ mtype ∷ rest)
      ≡ some (record { mtype = mtype; pk = take pk_size rest; vrf_pk = drop pk_size rest })
unfolding decode_payload
decode_long mtype rest h = rw h refl

decode_short :
    (mtype : ℕ)
    → decode_payload (payload_version ∷ mtype ∷ [])
      ≡ some (record { mtype = mtype; pk = []; vrf_pk = [] })
unfolding decode_payload
decode_short mtype = refl

encode_whole :
    (p : MinerPks)
    → length p.pk ≡ pk_size
    → length p.vrf_pk ≡ vrf_pk_size
    → encode_payload p ≡ payload_version ∷ p.mtype ∷ (p.pk ++ p.vrf_pk)
unfolding encode_payload
encode_whole p a b = rw (a, b) refl

encode_bare : (p : MinerPks) → p.pk ≡ [] → encode_payload p ≡ payload_version ∷ p.mtype ∷ []
unfolding encode_payload
encode_bare p a = rw a refl

decode-encode : (p : MinerPks) → IsWhole p → decode_payload (encode_payload p) ≡ some p
decode-encode p (inl (a, b)) =
    ap decode_payload (encode_whole p a b)
    ∙ decode_long p.mtype (p.pk ++ p.vrf_pk) (omega (arith, length-append p.pk p.vrf_pk, a, b))
    ∙ rw (take-append pk_size p.pk p.vrf_pk a, drop-append pk_size p.pk p.vrf_pk a) refl
decode-encode p (inr (a, b)) =
    ap decode_payload (encode_bare p a) ∙ decode_short p.mtype ∙ ground (arith, a, b)

two_more : (n k : ℕ) → (n == k) ≡ false → (suc (suc n) == suc (suc k)) ≡ false
two_more n k h = ground arith

wrong_length :
    (v t : ℕ) (rest : List ℕ) (p : MinerPks)
    → (length rest == pk_size + vrf_pk_size) ≡ false
    → (length rest == 0) ≡ false
    → decode_payload (v ∷ t ∷ rest) ≡ some p
    → ⊥
unfolding decode_payload
wrong_length v t rest p a b h =
    cc (rw (two_more (length rest) 0 b, two_more (length rest) (pk_size + vrf_pk_size) a) at (h))

decode_inverse :
    (v t : ℕ) (rest : List ℕ) (p : MinerPks)
    → decode_payload (v ∷ t ∷ rest) ≡ some p
    → (v ≡ payload_version)
      × (((length rest ≡ pk_size + vrf_pk_size)
            × (p ≡ record { mtype = t; pk = take pk_size rest; vrf_pk = drop pk_size rest }))
          ⊎ ((rest ≡ []) × (p ≡ record { mtype = t; pk = []; vrf_pk = [] })))
unfolding decode_payload
decode_inverse v t rest p h = elim (Bool-cases (length rest == pk_size + vrf_pk_size)) [
  | inl long ↦
      let n = (==_iff (length rest) (pk_size + vrf_pk_size)).0 long in
      elim (Bool-cases (v == payload_version)) [
        | inl e ↦
            ((==_iff v payload_version).0 e, inl (n, sym (some-injective _ _ (rw (n, e) at (h)))))
        | inr e ↦ absurd (ground (arith, rw (n, e) at (h)))
      ]
  | inr other ↦ elim (Bool-cases (length rest == 0)) [
    | inl short ↦
        let n = no_items rest ((==_iff (length rest) 0).0 short) in
        elim (Bool-cases (v == payload_version)) [
          | inl e ↦
              ((==_iff v payload_version).0 e, inr (n, sym (some-injective _ _ (rw (n, e) at (h)))))
          | inr e ↦ absurd (ground (arith, rw (n, e) at (h)))
        ]
    | inr more ↦ absurd (wrong_length v t rest p other more h)
  ]
]

empty_fails : (p : MinerPks) → decode_payload [] ≡ some p → ⊥
unfolding decode_payload
empty_fails p h = cc

single_fails : (v : ℕ) (p : MinerPks) → decode_payload (v ∷ []) ≡ some p → ⊥
unfolding decode_payload
single_fails v p h = cc

encode-decode : (bs : List ℕ) (p : MinerPks) → decode_payload bs ≡ some p → encode_payload p ≡ bs
encode-decode [] p h = absurd (empty_fails p h)
encode-decode (v ∷ []) p h = absurd (single_fails v p h)
encode-decode (v ∷ t ∷ rest) p h =
    let (e, cases) = decode_inverse v t rest p h in
    elim cases [
      | inl (n, f) ↦
          let whole =
            encode_whole (record { mtype = t; pk = take pk_size rest; vrf_pk = drop pk_size rest })
              (length-take pk_size rest (omega (arith, n)))
              (omega (arith, length-drop pk_size rest (omega (arith, n)), n)) in
          rw (f, e) (whole ∙ ap (λ r. payload_version ∷ t ∷ r) (take-append-drop pk_size rest))
      | inr (n, f) ↦ rw (f, e, n) (encode_bare (record { mtype = t; pk = []; vrf_pk = [] }) refl)
    ]

-- A payload that decodes is the encoding of what it decodes to, and whole keys are read back as
-- they were written: bytes and keys stand for one another.
pub decode_payload_iff :
    (bs : List ℕ) (p : MinerPks)
    → IsWhole p
    → (decode_payload bs ≡ some p) ↔ (encode_payload p ≡ bs)
decode_payload_iff bs p w = (encode-decode bs p, λ e. rw (← e) (decode-encode p w))
