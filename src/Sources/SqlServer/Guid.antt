-- ===== src/Sources/SqlServer/Guid.antt =====
-- internal/sources/sqlserver/source.go: `formatMSSQLGUID`.
use data_loader.Prelude.{
  ℕ, ◌+◌, ◌-◌, ◌/◌, ◌%◌, ◌<◌, ◌≡◌, refl, ap, List, [], ◌∷◌, ◌++◌, ltb, ◌==◌, ◌*◌, if◌then◌else◌,
  Text, format, num, Result, ok, err, length, arith,
}

-- A digit of `%X`.
abbrev hex_digit : ℕ → ℕ
hex_digit d = if ltb d 10 then b'0' + d else (b'A' + d) - 10

-- `%X` of bytes, two digits each.
abbrev hex_bytes : List ℕ → Text
hex_bytes [] = []
hex_bytes (b ∷ bs) = hex_digit (b / 16) ∷ hex_digit (b % 16) ∷ hex_bytes bs

-- `formatMSSQLGUID`: the first three groups are stored with the low byte first.
unfoldable pub format_guid : List ℕ → Result Text
format_guid
      (b0 ∷ b1 ∷ b2 ∷ b3 ∷ b4 ∷ b5 ∷ b6 ∷ b7 ∷ b8 ∷ b9 ∷ b10 ∷ b11 ∷ b12 ∷ b13 ∷ b14 ∷ b15 ∷ []) =
    ok (
      hex_bytes (b3 ∷ b2 ∷ b1 ∷ b0 ∷ [])
      ++ (b'-' ∷ hex_bytes (b5 ∷ b4 ∷ []))
      ++ (b'-' ∷ hex_bytes (b7 ∷ b6 ∷ []))
      ++ (b'-' ∷ hex_bytes (b8 ∷ b9 ∷ []))
      ++ (b'-' ∷ hex_bytes (b10 ∷ b11 ∷ b12 ∷ b13 ∷ b14 ∷ b15 ∷ [])))
format_guid bs = err (format "uniqueidentifier: expected 16 bytes" (num (length bs) ∷ []))

-- The hexadecimal digits of a GUID, without its hyphens.
strip : Text → Text
strip [] = []
strip (c ∷ cs) = let rest = strip cs in if c == b'-' then rest else c ∷ rest

digit_value : ℕ → ℕ
digit_value c = if ltb c b'A' then c - b'0' else (c + 10) - b'A'

bytes_of : Text → List ℕ
unfolding digit_value
bytes_of [] = []
bytes_of (c ∷ []) = []
bytes_of (c ∷ d ∷ cs) = (digit_value c * 16 + digit_value d) ∷ bytes_of cs

swap_groups : List ℕ → List ℕ
swap_groups (b0 ∷ b1 ∷ b2 ∷ b3 ∷ b4 ∷ b5 ∷ b6 ∷ b7 ∷ rest) =
    b3 ∷ b2 ∷ b1 ∷ b0 ∷ b5 ∷ b4 ∷ b7 ∷ b6 ∷ rest
swap_groups bs = bs

-- The sixteen bytes that SQL Server stores for a GUID in its canonical form.
unfoldable pub parse_guid : Text → List ℕ
unfolding strip bytes_of swap_groups
parse_guid t = swap_groups (bytes_of (strip t))

abbrev pub AreBytes : List ℕ → Type 0
AreBytes [] = Unit
AreBytes (b ∷ bs) = (b < 256) × AreBytes bs

strip-append : (s t : Text) → strip (s ++ t) ≡ strip s ++ strip t
unfolding strip
strip-append [] t = refl
strip-append (c ∷ cs) t = ground (arith, strip-append cs t)

strip-hex_bytes : (bs : List ℕ) → AreBytes bs → strip (hex_bytes bs) ≡ hex_bytes bs
unfolding strip
strip-hex_bytes [] h = refl
strip-hex_bytes (b ∷ bs) h = ground (arith, strip-hex_bytes bs h.1)

bytes_of-hex_bytes : (bs : List ℕ) → AreBytes bs → bytes_of (hex_bytes bs) ≡ bs
unfolding bytes_of digit_value
bytes_of-hex_bytes [] h = refl
bytes_of-hex_bytes (b ∷ bs) h = ground (arith, bytes_of-hex_bytes bs h.1)

hex_bytes-append : (xs ys : List ℕ) → hex_bytes (xs ++ ys) ≡ hex_bytes xs ++ hex_bytes ys
hex_bytes-append [] ys = refl
hex_bytes-append (x ∷ xs) ys = rw (hex_bytes-append xs ys)

-- A group with its hyphen, behind what comes before it.
strip-group :
    (shown : Text) (seen group : List ℕ)
    → AreBytes group
    → strip shown ≡ hex_bytes seen
    → strip (shown ++ (b'-' ∷ hex_bytes group)) ≡ hex_bytes (seen ++ group)
unfolding strip
strip-group shown seen group h e = rw (
  strip-append shown (b'-' ∷ hex_bytes group),
  e,
  strip-hex_bytes group h,
  hex_bytes-append seen group,
)

abbrev groups : List ℕ → List ℕ → List ℕ → List ℕ → List ℕ → Text
groups p q r s t =
    hex_bytes p
    ++ (b'-' ∷ hex_bytes q)
    ++ (b'-' ∷ hex_bytes r)
    ++ (b'-' ∷ hex_bytes s)
    ++ (b'-' ∷ hex_bytes t)

bytes_of-groups :
    (p q r s t : List ℕ)
    → AreBytes p
    → AreBytes q
    → AreBytes r
    → AreBytes s
    → AreBytes t
    → AreBytes (p ++ q ++ r ++ s ++ t)
    → bytes_of (strip (groups p q r s t)) ≡ p ++ q ++ r ++ s ++ t
bytes_of-groups p q r s t hp hq hr hs ht h =
    let two = strip-group (hex_bytes p) p q hq (strip-hex_bytes p hp) in
    let three = strip-group _ (p ++ q) r hr two in
    let four = strip-group _ (p ++ q ++ r) s hs three in
    let five = strip-group _ (p ++ q ++ r ++ s) t ht four in
    rw (five, bytes_of-hex_bytes (p ++ q ++ r ++ s ++ t) h)

-- Any sixteen bytes have a canonical form, from which the bytes that SQL Server stores are read back.
pub parse_guid-format_guid :
    (b0 b1 b2 b3 b4 b5 b6 b7 b8 b9 b10 b11 b12 b13 b14 b15 : ℕ)
    → AreBytes
        (b0 ∷ b1 ∷ b2 ∷ b3 ∷ b4 ∷ b5 ∷ b6 ∷ b7 ∷ b8 ∷ b9 ∷ b10 ∷ b11 ∷ b12 ∷ b13 ∷ b14 ∷ b15 ∷ [])
    → (shown : Text) × ((format_guid (
            b0 ∷ b1 ∷ b2 ∷ b3 ∷ b4 ∷ b5 ∷ b6 ∷ b7 ∷ b8 ∷ b9 ∷ b10 ∷ b11 ∷ b12 ∷ b13 ∷ b14 ∷ b15
            ∷ [])
          ≡ ok shown)
        × (parse_guid shown
            ≡ b0 ∷ b1 ∷ b2 ∷ b3 ∷ b4 ∷ b5 ∷ b6 ∷ b7 ∷ b8 ∷ b9 ∷ b10 ∷ b11 ∷ b12 ∷ b13 ∷ b14 ∷ b15
              ∷ []))
unfolding format_guid parse_guid swap_groups
parse_guid-format_guid b0 b1 b2 b3 b4 b5 b6 b7 b8 b9 b10 b11 b12 b13 b14 b15
      (
        h0,
        (
          h1,
          (
            h2,
            (h3, (h4, (h5, (h6, (h7, (h8, (h9, (h10, (h11, (h12, (h13, (h14, (h15, u))))))))))))),
          ),
        ),
      ) =
    (
      _,
      (
        refl,
        ap swap_groups (
            bytes_of-groups (b3 ∷ b2 ∷ b1 ∷ b0 ∷ []) (b5 ∷ b4 ∷ []) (b7 ∷ b6 ∷ []) (b8 ∷ b9 ∷ [])
              (b10 ∷ b11 ∷ b12 ∷ b13 ∷ b14 ∷ b15 ∷ []) (h3, (h2, (h1, (h0, u)))) (h5, (h4, u))
              (h7, (h6, u)) (h8, (h9, u)) (h10, (h11, (h12, (h13, (h14, (h15, u))))))
              (
                h3,
                (
                  h2,
                  (
                    h1,
                    (
                      h0,
                      (
                        h5,
                        (h4, (h7, (h6, (h8, (h9, (h10, (h11, (h12, (h13, (h14, (h15, u))))))))))),
                      ),
                    ),
                  ),
                ),
              )),
      ),
    )
