-- ===== src/SqlIdent/Accepted.antt =====
-- What `Validate` lets through, and what the quoting of an accepted name is.
use data_loader.Prelude.{
  ℕ, ◌≤◌, ◌≡◌, refl, Bool, true, false, none, [], ◌∷◌, ◌++◌, arith, ◌==◌, length, Text,
}
use data_loader.SqlIdent.{
  Unicode, ident_start, ident_part, ident_parts, ident_re, validate, byte_len, trim, trim_left,
  trim_right, cons_unless, double, brackets, brackets_quote, quote_mark, quote_mssql,
  quote_postgres, max_ident_len,
}

-- No character of the text is `[`, `]` or `"`.
abbrev pub HasNoDelimiter : Text → Type 0
HasNoDelimiter [] = Unit {0}
HasNoDelimiter (c ∷ cs) = (brackets_quote c ≡ false) × HasNoDelimiter cs

module _ (u : Unicode) where
  ident_part-no_delimiter : (c : ℕ) → ident_part u c ≡ true → brackets_quote c ≡ false
  unfolding ident_part
  ident_part-no_delimiter c h = ground (arith, u.letter_ascii c, u.number_ascii c)

  ident_start-ident_part : (c : ℕ) → ident_start u c ≡ true → ident_part u c ≡ true
  unfolding ident_start ident_part
  ident_start-ident_part c h = ground arith

  ident_parts-HasNoDelimiter : (cs : Text) → ident_parts u cs ≡ true → HasNoDelimiter cs
  unfolding ident_parts
  ident_parts-HasNoDelimiter [] h = tt
  ident_parts-HasNoDelimiter (c ∷ cs) h =
      (ident_part-no_delimiter c (ground arith), ident_parts-HasNoDelimiter cs (ground arith))

  ident_re-HasNoDelimiter : (name : Text) → ident_re u name ≡ true → HasNoDelimiter name
  unfolding ident_re
  ident_re-HasNoDelimiter [] h = tt
  ident_re-HasNoDelimiter (c ∷ cs) h = (
    ident_part-no_delimiter c (ident_start-ident_part c (ground arith)),
    ident_parts-HasNoDelimiter cs (ground arith),
  )

  ident_re-length : (name : Text) → ident_re u name ≡ true → (1 ≤ length name) × (length name ≤ 128)
  unfolding ident_re
  ident_re-length [] h = cc
  ident_re-length (c ∷ cs) h = ground arith

  validate-ident_re : (name : Text) → validate u name ≡ none → ident_re u name ≡ true
  unfolding validate
  validate-ident_re name h = ground arith

  validate-byte_len : (name : Text) → validate u name ≡ none → byte_len name ≤ 128
  unfolding validate
  validate-byte_len name h = ground arith

-- Trimming and doubling leave a text without delimiters as it is.
trim_left-plain :
    (cut : ℕ → Bool) (cs : Text)
    → ((c : ℕ) → brackets_quote c ≡ false → cut c ≡ false)
    → HasNoDelimiter cs
    → trim_left cut cs ≡ cs
unfolding trim_left
trim_left-plain cut [] w h = refl
trim_left-plain cut (c ∷ cs) w h = rw (w c h.0) refl

trim_right-plain :
    (cut : ℕ → Bool) (cs : Text)
    → ((c : ℕ) → brackets_quote c ≡ false → cut c ≡ false)
    → HasNoDelimiter cs
    → trim_right cut cs ≡ cs
unfolding trim_right cons_unless
trim_right-plain cut [] w h = refl
trim_right-plain cut (c ∷ []) w h = rw (w c h.0) refl
trim_right-plain cut (c ∷ d ∷ ds) w h = rw (trim_right-plain cut (d ∷ ds) w h.1, trim_right) refl

trim-plain :
    (cut : ℕ → Bool) (cs : Text)
    → ((c : ℕ) → brackets_quote c ≡ false → cut c ≡ false)
    → HasNoDelimiter cs
    → trim cut cs ≡ cs
unfolding trim
trim-plain cut cs w h = rw (trim_left-plain cut cs w h) (trim_right-plain cut cs w h)

double-plain :
    (q : ℕ) (cs : Text)
    → ((c : ℕ) → brackets_quote c ≡ false → (c == q) ≡ false)
    → HasNoDelimiter cs
    → double q cs ≡ cs
unfolding double
double-plain q [] w h = refl
double-plain q (c ∷ cs) w h = rw (w c h.0, double-plain q cs w h.1) refl

-- A name that `Validate` accepts has 1 to 128 characters, at most 128 bytes and no delimiter, and
-- each quoting function puts it between its delimiters unchanged.
pub validate-quote :
    (u : Unicode) (name : Text)
    → validate u name ≡ none
    → (1 ≤ length name)
      × (length name ≤ max_ident_len)
      × (byte_len name ≤ max_ident_len)
      × HasNoDelimiter name
      × (quote_mssql name ≡ b'[' ∷ (name ++ b']' ∷ []))
      × (quote_postgres name ≡ b'"' ∷ (name ++ b'"' ∷ []))
unfolding quote_mssql quote_postgres
validate-quote u name h = (
  (ident_re-length u name re).0,
  (ident_re-length u name re).1,
  validate-byte_len u name h,
  clean,
  rw
      (
        trim-plain brackets name (λ c. ground arith) clean,
        double-plain b']' name (λ c. ground arith) clean,
      )
      refl,
  rw
      (
        trim-plain quote_mark name (λ c. ground arith) clean,
        double-plain b'"' name (λ c. ground arith) clean,
      )
      refl,
)
  where
    re : ident_re u name ≡ true
    re = validate-ident_re u name h

    clean : HasNoDelimiter name
    clean = ident_re-HasNoDelimiter u name re
