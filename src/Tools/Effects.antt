-- ===== src/Tools/Effects.antt =====
-- How often the effect of a tool has happened under a key: by the entries of the ledger
-- (internal/tools/ledger.go), also those that stand on a line with others.
use durable_agent_execution.Prelude.{
  ℕ, suc, ◌+◌, ◌≡◌, refl, String, List, [], ◌∷◌, ◌++◌, Option, none, some, ok, str_dec, ite, arith,
  ◌<◌, true, ap, ◌∙◌, sym, ◌≤◌, Bool-cases, inr, inl, >>=-eq-ok, ◌>>=◌, ok-injective,
}
use durable_agent_execution.Json.{Bytes, fits_int64}
use durable_agent_execution.Events.Codec.{TimeText, time_limit}
use durable_agent_execution.Tools.Host.{Host, Line}
use durable_agent_execution.Tools.Ledger.{
  LedgerEntry, entry_wire, encode_entry, read_entry, decode_entry, line_bytes, parse_line,
  parse_ledger, add_entry, first_under,
}
use durable_agent_execution.Tools.Written.{File, append_line, tear, scanned}

module _ (text : TimeText) where
  read_entry-wire :
      (e : LedgerEntry)
      → e.recorded_at < time_limit
      → fits_int64 e.writer_pid ≡ true
      → read_entry text (entry_wire text e) ≡ some e
  unfolding read_entry entry_wire
  read_entry-wire e early fits = ground (arith, text.parse-format e.recorded_at)

  -- An entry that Record can encode, with an int64 process id, is read back as it was.
  pub decode_entry-encode :
      (e : LedgerEntry) (b : Bytes)
      → fits_int64 e.writer_pid ≡ true
      → encode_entry text e ≡ some b
      → decode_entry text b ≡ some e
  unfolding encode_entry decode_entry
  decode_entry-encode e b fits h = ground (arith, read_entry-wire e)

  abbrev pub counts : String → Option LedgerEntry → ℕ
  counts k none = 0
  counts k (some e) = ite (str_dec e.idempotency_key k) 1 0

  unfoldable pub pieces_under : String → List Bytes → ℕ
  pieces_under k [] = 0
  pieces_under k (b ∷ bs) = counts k (decode_entry text b) + pieces_under k bs

  unfoldable pub lines_under : String → List Line → ℕ
  unfolding pieces_under
  lines_under k [] = 0
  lines_under k (line ∷ lines) = pieces_under k line + lines_under k lines

  -- The entries under a key, whole or torn.
  unfoldable pub effects_in : String → File → ℕ
  unfolding lines_under pieces_under
  effects_in k f = lines_under k f.done + pieces_under k f.torn

  pieces_under-append :
      (k : String) (xs ys : List Bytes)
      → pieces_under k (xs ++ ys) ≡ pieces_under k xs + pieces_under k ys
  unfolding pieces_under
  pieces_under-append k [] ys = omega arith
  pieces_under-append k (x ∷ xs) ys = omega (arith, pieces_under-append k xs ys)

  lines_under-append :
      (k : String) (xs ys : List Line)
      → lines_under k (xs ++ ys) ≡ lines_under k xs + lines_under k ys
  unfolding lines_under
  lines_under-append k [] ys = omega arith
  lines_under-append k (x ∷ xs) ys = omega (arith, lines_under-append k xs ys)

  pub effects_in-append_line :
      (k : String) (b : Bytes) (f : File)
      → effects_in k (append_line b f) ≡ effects_in k f + counts k (decode_entry text b)
  unfolding effects_in lines_under pieces_under
  effects_in-append_line k b f = omega (
    arith,
    lines_under-append k f.done ((f.torn ++ b ∷ []) ∷ []),
    pieces_under-append k f.torn (b ∷ []),
  )

  pub effects_in-tear :
      (k : String) (b : Bytes) (f : File)
      → effects_in k (tear b f) ≡ effects_in k f + counts k (decode_entry text b)
  unfolding effects_in lines_under pieces_under
  effects_in-tear k b f = omega (arith, pieces_under-append k f.torn (b ∷ []))

  scanned_under :
      (k : String) (ls : List Line) (torn : Line)
      → lines_under k (scanned (record { done = ls; torn = torn }))
        ≡ lines_under k ls + pieces_under k torn
  unfolding lines_under pieces_under
  scanned_under k ls [] = omega arith
  scanned_under k ls (b ∷ bs) = omega (arith, lines_under-append k ls ((b ∷ bs) ∷ []))

  pub effects_in-scanned : (k : String) (f : File) → lines_under k (scanned f) ≡ effects_in k f
  unfolding effects_in
  effects_in-scanned k f = scanned_under k f.done f.torn

  unfoldable pub entries_under : String → List LedgerEntry → ℕ
  entries_under k [] = 0
  entries_under k (e ∷ es) = counts k (some e) + entries_under k es

  pub first_under-none :
      (k : String) (es : List LedgerEntry) → first_under k es ≡ none → entries_under k es ≡ 0
  unfolding first_under entries_under
  first_under-none k [] h = refl
  first_under-none k (e ∷ es) h = ground (arith, first_under-none k es)

  pub first_under-some :
      (k : String) (es : List LedgerEntry) (e : LedgerEntry)
      → first_under k es ≡ some e
      → 1 ≤ entries_under k es
  unfolding first_under entries_under
  first_under-some k [] e h = absurd (cc h)
  first_under-some k (x ∷ es) e h = ground (arith, first_under-some k es e)

module _ {W : Type 0} (host : Host W) (k : String) where
  parse_line-counts :
      (n : ℕ) (line : Line) (e : Option LedgerEntry)
      → parse_line host n line ≡ ok e
      → counts host.text k e ≡ pieces_under host.text k line
  unfolding parse_line pieces_under line_bytes decode_entry
  parse_line-counts n [] e h = ground (arith, h)
  parse_line-counts n (b ∷ []) e h = ground (arith, h)
  parse_line-counts n (b ∷ d ∷ bs) e h = absurd (cc h)

  add_entry-counts :
      (e : Option LedgerEntry) (es : List LedgerEntry)
      → entries_under host.text k (add_entry host e es)
        ≡ counts host.text k e + entries_under host.text k es
  unfolding add_entry entries_under
  add_entry-counts none es = omega arith
  add_entry-counts (some e) es = refl

  whole_line :
      (n : ℕ) (line : Line) (lines : List Line)
      → host.fits_buffer line ≡ true
      → parse_ledger host n (line ∷ lines) ≡ (
          parse_line host n line >>= λ e.
          parse_ledger host (suc n) lines >>= λ es. ok (add_entry host e es))
  unfolding parse_ledger
  whole_line n line lines fits = ground (arith, fits)

  -- A ledger that can be read has an entry for each effect under the key.
  pub parse_ledger-counts :
      (n : ℕ) (lines : List Line) (es : List LedgerEntry)
      → parse_ledger host n lines ≡ ok es
      → entries_under host.text k es ≡ lines_under host.text k lines
  unfolding parse_ledger entries_under lines_under
  parse_ledger-counts n [] es h = ground (arith, h)
  parse_ledger-counts n (line ∷ lines) es h = elim (Bool-cases (host.fits_buffer line)) [
    | inr long ↦ absurd (ground (arith, long, h))
    | inl fits ↦
        let (e, this, then_rest) =
          >>=-eq-ok (parse_line host n line) _ (sym (whole_line n line lines fits) ∙ h) in
        let (tail, those, done) = >>=-eq-ok (parse_ledger host (suc n) lines) _ then_rest in
        omega (
          arith,
          parse_line-counts n line e this,
          parse_ledger-counts (suc n) lines tail those,
          add_entry-counts e tail,
          ap (entries_under host.text k) (ok-injective done),
        )
  ]
