-- ===== src/Pipeline/Fingerprint.antt =====
-- internal/pipeline/session.go: `ParamsFingerprint`, up to the digest of SHA-256 over what it writes. A
-- text is the bytes of a Go string here, and `strings.ToLower` is a parameter.
use data_loader.Prelude.{
  ℕ, ◌≡◌, ◌≢◌, refl, sym, ap, ◌∙◌, Bool, true, false, either, List, [], ◌∷◌, ◌++◌, ◌==◌, ltb,
  if◌then◌else◌, Text,
}

-- `<` and `==` of strings, as the test of `sort.Strings`.
unfoldable pub text_le : Text → Text → Bool
text_le [] t = true
text_le (c ∷ s) [] = false
text_le (c ∷ s) (d ∷ t) = if ltb c d then true else if c == d then text_le s t else false

abbrev Entries : Type 0
Entries = List (Text × Text)

unfoldable pub insert_key : Text → Text → Entries → Entries
unfolding text_le
insert_key k v [] = (k, v) ∷ []
insert_key k v ((j, w) ∷ params) =
    let rest = insert_key k v params in
    if text_le k j then (k, v) ∷ (j, w) ∷ params else (j, w) ∷ rest

-- `sort.Strings` on the keys, each with its value.
unfoldable pub sort_keys : Entries → Entries
unfolding insert_key
sort_keys [] = []
sort_keys ((k, v) ∷ params) = insert_key k v (sort_keys params)

-- The writes of the loop.
unfoldable pub encode : Entries → Text
encode [] = []
encode ((k, v) ∷ params) = k ++ (0 ∷ (v ++ (0 ∷ encode params)))

-- All that `ParamsFingerprint` writes to the hash.
unfoldable pub hashed : (Text → Text) → Text → Entries → Text
unfolding encode sort_keys
hashed lower kind params = lower kind ++ (0 ∷ encode (sort_keys params))

-- No byte is zero.
abbrev pub NoNul : Text → Type 0
NoNul [] = Unit
NoNul (c ∷ s) = (c ≢ 0) × NoNul s

abbrev pub AllNoNul : Entries → Type 0
AllNoNul [] = Unit
AllNoNul ((k, v) ∷ params) = (NoNul k × NoNul v) × AllNoNul params

split-append :
    (s t a b : Text) → NoNul s → NoNul t → s ++ (0 ∷ a) ≡ t ++ (0 ∷ b) → (s ≡ t) × (a ≡ b)
split-append [] [] a b hs ht e = (refl, cc)
split-append [] (d ∷ t) a b hs ht e = absurd (ht.0 cc)
split-append (c ∷ s) [] a b hs ht e = absurd (hs.0 cc)
split-append (c ∷ s) (d ∷ t) a b hs ht e =
    let rest = split-append s t a b hs.1 ht.1 cc in
    let first : c ≡ d = cc in
    (ap (λ (x : ℕ). x ∷ s) first ∙ ap (λ (u : Text). d ∷ u) rest.0, rest.1)

encode_nonempty : (k v : Text) (params : Entries) → [] ≢ encode ((k, v) ∷ params)
unfolding encode
encode_nonempty [] v params e = cc
encode_nonempty (c ∷ k) v params e = cc

encode_inj : (p q : Entries) → AllNoNul p → AllNoNul q → encode p ≡ encode q → p ≡ q
unfolding encode
encode_inj [] [] hp hq e = refl
encode_inj [] ((k, v) ∷ q) hp hq e = absurd (encode_nonempty k v q e)
encode_inj ((k, v) ∷ p) [] hp hq e = absurd (encode_nonempty k v p (sym e))
encode_inj ((k, v) ∷ p) ((j, w) ∷ q) hp hq e =
    let keys = split-append k j _ _ hp.0.0 hq.0.0 e in
    let values = split-append v w _ _ hp.0.1 hq.0.1 keys.1 in
    let rest = encode_inj p q hp.1 hq.1 values.1 in
    ap (λ (x : Text). (x, v) ∷ p) keys.0
    ∙ ap (λ (x : Text). (j, x) ∷ p) values.0
    ∙ ap (λ (r : Entries). (j, w) ∷ r) rest

insert_key-AllNoNul :
    (k v : Text) (params : Entries)
    → NoNul k
    → NoNul v
    → AllNoNul params
    → AllNoNul (insert_key k v params)
unfolding insert_key
insert_key-AllNoNul k v [] hk hv h = ((hk, hv), tt)
insert_key-AllNoNul k v ((j, w) ∷ params) hk hv h =
    either AllNoNul (text_le k j) _ _ ((hk, hv), h) (h.0, insert_key-AllNoNul k v params hk hv h.1)

sort_keys-AllNoNul : (params : Entries) → AllNoNul params → AllNoNul (sort_keys params)
unfolding sort_keys
sort_keys-AllNoNul [] h = tt
sort_keys-AllNoNul ((k, v) ∷ params) h =
    insert_key-AllNoNul k v (sort_keys params) h.0.0 h.0.1 (sort_keys-AllNoNul params h.1)

-- Two sources whose kinds and parameters have no zero byte, and for which the same bytes are hashed, have
-- the same kind in lower case and the same parameters in the order of their keys.
pub hashed_inj :
    (lower : Text → Text) (kind kind' : Text) (params params' : List (Text × Text))
    → NoNul (lower kind)
    → NoNul (lower kind')
    → AllNoNul params
    → AllNoNul params'
    → hashed lower kind params ≡ hashed lower kind' params'
    → (lower kind ≡ lower kind') × (sort_keys params ≡ sort_keys params')
unfolding hashed
hashed_inj lower kind kind' params params' hk hk' hp hp' e =
    let parts = split-append (lower kind) (lower kind') _ _ hk hk' e in
    (
      parts.0,
      encode_inj (sort_keys params) (sort_keys params') (sort_keys-AllNoNul params hp)
          (sort_keys-AllNoNul params' hp') parts.1,
    )
