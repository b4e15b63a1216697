-- ===== src/Parser/Strings/Decode.antt =====
-- src/parser.c, parse_string: every string of the grammar is read, and its bytes are left in the
-- buffer.
use jsnpg.Base.{
  ℕ, zero, suc, ◌+◌, ◌≤◌, ◌<◌, List, [], ◌∷◌, ◌++◌, append-nil, append_assoc, Bool, true, false,
  none, some, ◌≡◌, ◌≢◌, refl, ◌∙◌, ◌⊎◌, arith, length, length-append,
}
use jsnpg.Base.Memory.{Memory, Holds, Holds-left, Holds-right, Holds-agree, Holds-move}
use jsnpg.Input.{
  Mis, mis_peek, mis_take, mis_string_start, mis_string_update, mis_string_complete,
  mis_validate_utf8,
}
use jsnpg.Outcome.{ok}
use jsnpg.Utf8.{utf8_encode, is_valid_codepoint, utf8_validate_sequence}
use jsnpg.Utf8.RoundTrip.{validate-encode, encode_head, length-encode-le}
use jsnpg.Parser.Grammar.{Escape, short, unicode, pair, Denotes, nothing, plain, sequence, escaped}
use jsnpg.Parser.White.{bytes_left}
use jsnpg.Parser.Escape.Reads.{forward, parse_escape-Escape, length-encode-lt-Escape}
use jsnpg.Parser.Strings.{
  string_escape, string_step, string_loop, parse_string_in_stream, parse_string,
}
use jsnpg.Parser.Strings.InPlace.{
  Spares, Spares-trans, Spares-read, Built, Built-forward, after_escape, escape-Spares,
  escape-Built, update-Updated, Completed, mis_string_complete-Completed,
}

module _ (v : Bool) (mis : Mis) where
  step_quote :
      mis_peek mis ≡ b'"'
      → string_step v mis ≡ ok (some (mis_string_complete mis).0) (mis_string_complete mis).1
  unfolding string_step
  step_quote e = rw (e, string_step) refl

  step_plain :
      0x20 ≤ mis_peek mis
      → mis_peek mis ≢ b'"'
      → mis_peek mis ≢ b'\\'
      → (v ≡ false) ⊎ (mis_peek mis < 0x80)
      → string_step v mis ≡ ok none (mis_take mis)
  unfolding string_step
  step_plain lo q b ascii = ground arith

  step_sequence :
      (n : ℕ)
      → v ≡ true
      → 0x80 ≤ mis_peek mis
      → utf8_validate_sequence (λ i. mis.bytes (mis.read + i)) 4 ≡ some n
      → string_step v mis ≡ ok none (forward mis n)
  unfolding string_step mis_validate_utf8
  step_sequence n e hi valid = ground arith

  step_escape : mis_peek mis ≡ b'\\' → string_step v mis ≡ string_escape mis
  unfolding string_step
  step_escape e = rw (e, string_step) refl

  loop_more :
      (fuel : ℕ) (m : Mis)
      → string_step v mis ≡ ok none m
      → string_loop v (suc fuel) mis ≡ string_loop v fuel m
  unfolding string_loop
  loop_more fuel m e = ground arith

  loop_end :
      (fuel len : ℕ) (m : Mis)
      → string_step v mis ≡ ok (some len) m
      → string_loop v (suc fuel) mis ≡ ok len m
  unfolding string_loop
  loop_end fuel len m e = ground arith

string_escape-Escape :
    (mis : Mis) (esc : List ℕ) (cp : ℕ)
    → Escape esc cp
    → (mis_string_update mis).read ≡ mis.read
    → Holds (mis_string_update mis).bytes mis.read esc
    → string_escape mis ≡ ok none (after_escape mis (length esc) cp)
unfolding string_escape
string_escape-Escape mis esc cp e at_ h =
    let p = parse_escape-Escape (mis_string_update mis) esc cp e (rw at_ h) in ground (arith, p)

sequence_step :
    (v : Bool) (mis : Mis) (cp : ℕ)
    → v ≡ true
    → 0x80 ≤ cp
    → is_valid_codepoint cp ≡ true
    → Holds mis.bytes mis.read (utf8_encode cp)
    → (string_step v mis ≡ ok none (forward mis (length (utf8_encode cp))))
      × (0 < length (utf8_encode cp))
sequence_step v mis cp on hi valid h =
    let (b, bs, code, top) = encode_head cp hi valid in
    let at_pointer : Holds (λ i. mis.bytes (mis.read + i)) 0 (utf8_encode cp) =
      Holds-move mis.bytes (λ i. mis.bytes (mis.read + i)) mis.read 0 (utf8_encode cp)
        (λ k lt. let z : 0 + k ≡ k = omega arith in rw z) h in
    (
      step_sequence v mis (length (utf8_encode cp)) on (rw ((rw code at h).0) top) (
          validate-encode (λ i. mis.bytes (mis.read + i)) 4 cp valid at_pointer
            (length-encode-le cp)),
      rw code (omega arith),
    )

-- The string is read from `mis` to the end of its closing quote at `n`.
abbrev Reads : Bool → ℕ → Mis → List ℕ → ℕ → Type 0
Reads v fuel mis text n =
    (len : ℕ) × (m : Mis) × (string_loop v fuel mis ≡ ok len m) × Completed mis m len text n

Completed-after :
    (a b m : Mis) (len : ℕ) (text : List ℕ) (n : ℕ)
    → Spares a b
    → Completed b m len text n
    → Completed a m len text n
Completed-after a b m len text n s c = record {
  length_is = c.length_is;
  holds = c.holds;
  spares = Spares-trans a b m s c.spares;
  read = c.read;
}

module _ (v : Bool) (mis : Mis) where
  Reads-step :
      (fuel : ℕ) (b : Mis) (text text' : List ℕ) (n : ℕ)
      → string_step v mis ≡ ok none b
      → Spares mis b
      → text ≡ text'
      → Reads v fuel b text n
      → Reads v (suc fuel) mis text' n
  Reads-step fuel b text text' n e s t (len, m, run, c) =
      (len, m, loop_more v mis fuel b e ∙ run, Completed-after mis b m len text' n s (rw (← t) c))

  Reads-end :
      (fuel : ℕ) (xs ys : List ℕ) (n : ℕ)
      → Built mis xs ys
      → mis_peek mis ≡ b'"'
      → n ≡ suc mis.read
      → Reads v (suc fuel) mis (xs ++ ys) n
  Reads-end fuel xs ys n b q e = (
    _,
    _,
    loop_end v mis fuel _ _ (step_quote v mis q),
    mis_string_complete-Completed mis xs ys b n e,
  )

-- every escape begins with a backslash
first-Escape :
    (m : Memory) (i : ℕ) (rest : List ℕ) {cp : ℕ} {esc : List ℕ}
    → Escape esc cp
    → Holds m i (esc ++ rest)
    → m i ≡ b'\\'
first-Escape m i rest (short s) h = h.0
first-Escape m i rest (unicode x r) h = h.0
first-Escape m i rest (pair x y a b c d e) h = h.0

-- The induction: any text built so far, and any fuel above the length of the rest.
string_loop-Denotes :
    (v : Bool) (mis : Mis) (xs ys : List ℕ) (fuel n : ℕ) {body text : List ℕ}
    → Denotes v body text
    → Built mis xs ys
    → Holds mis.bytes mis.read (body ++ b'"' ∷ [])
    → length body < fuel
    → n ≡ suc (mis.read + length body)
    → Reads v fuel mis (xs ++ (ys ++ text)) n
string_loop-Denotes v mis xs ys zero n d b h lt e = absurd (omega arith)
string_loop-Denotes v mis xs ys (suc fuel) n nothing b h lt e =
    rw (append-nil ys) (Reads-end v mis fuel xs ys n b h.0 (omega arith))
string_loop-Denotes v mis xs ys (suc fuel) n (plain {body} {text} c lo q bs ascii d) b h lt e =
    let peeked : mis_peek mis ≡ c = h.0 in
    Reads-step v mis fuel (mis_take mis) (xs ++ ((ys ++ c ∷ []) ++ text)) (xs ++ (ys ++ c ∷ text)) n
      (step_plain v mis (rw peeked lo) (rw peeked q) (rw peeked bs) (rw peeked ascii))
      (Spares-read mis (suc mis.read) (omega arith)) (rw append_assoc)
      (string_loop-Denotes v (mis_take mis) xs (ys ++ c ∷ []) fuel n d
        (Built-forward mis xs ys b (c ∷ []) (suc mis.read) (omega arith) (peeked, tt)) h.1
        (omega arith) (omega arith))
string_loop-Denotes v mis xs ys (suc fuel) n (sequence {body} {text} cp on hi valid d) b h lt e =
    let code = utf8_encode cp in
    let h' : Holds mis.bytes mis.read (code ++ (body ++ b'"' ∷ [])) = rw append_assoc at h in
    let here = Holds-left mis.bytes mis.read code (body ++ b'"' ∷ []) h' in
    let (step, some_bytes) = sequence_step v mis cp on hi valid here in
    let next = forward mis (length code) in
    Reads-step v mis fuel next (xs ++ ((ys ++ code) ++ text)) (xs ++ (ys ++ (code ++ text))) n step
      (Spares-read mis (mis.read + length code) (omega arith)) (rw append_assoc)
      (string_loop-Denotes v next xs (ys ++ code) fuel n d
        (Built-forward mis xs ys b code (mis.read + length code) refl here)
        (Holds-right mis.bytes mis.read code (body ++ b'"' ∷ []) h')
        (omega (arith, length-append code body)) (omega (arith, length-append code body)))
string_loop-Denotes v mis xs ys (suc fuel) n (escaped {body} {text} {esc} cp es d) b h lt e =
    let code = utf8_encode cp in
    let size = length esc in
    let u = update-Updated mis xs ys b in
    let shrinks = length-encode-lt-Escape esc cp es in
    let h' : Holds mis.bytes mis.read (esc ++ (body ++ b'"' ∷ [])) = rw append_assoc at h in
    let here =
      Holds-agree mis.bytes (mis_string_update mis).bytes mis.read esc
        (λ j lo hi. u.spares.ahead j (omega (arith, u.read)))
        (Holds-left mis.bytes mis.read esc _ h') in
    let next = after_escape mis size cp in
    let spares = escape-Spares mis xs ys b size cp (omega arith) in
    let behind : (mis_string_update mis).read + size ≡ mis.read + size = omega (arith, u.read) in
    let rest =
      Holds-agree mis.bytes next.bytes (mis.read + size) (body ++ b'"' ∷ [])
        (λ j lo hi. spares.ahead j (omega arith)) (Holds-right mis.bytes mis.read esc _ h') in
    Reads-step v mis fuel next (((xs ++ ys) ++ code) ++ ([] ++ text)) (xs ++ (ys ++ (code ++ text)))
      n
      (step_escape v mis (first-Escape mis.bytes mis.read (body ++ b'"' ∷ []) es h')
        ∙ string_escape-Escape mis esc cp es u.read here)
      spares (simp append_assoc)
      (string_loop-Denotes v next ((xs ++ ys) ++ code) [] fuel n d
        (escape-Built mis xs ys b size cp (omega arith)) (rw behind rest)
        (omega (arith, length-append esc body)) (omega (arith, length-append esc body)))

-- Where a string of the grammar stands behind the quote that the stream is at, `parse_string`
-- returns the length of the text it denotes, leaves that text in the buffer at `string`, stops
-- behind the closing quote, and changes no byte from there on or in front of the string. The
-- loop's fuel, the bytes left of the input and one more, is enough.
pub parse_string-Denotes :
    (v : Bool) {body text : List ℕ} (mis : Mis)
    → Denotes v body text
    → Holds mis.bytes (suc mis.read) (body ++ b'"' ∷ [])
    → suc mis.read + suc (length body) ≤ mis.count
    → (len : ℕ) × (m : Mis) × (parse_string v mis ≡ ok len m)
      × Completed (mis_string_start (mis_take mis)) m len text (suc (suc (mis.read + length body)))
unfolding parse_string parse_string_in_stream
parse_string-Denotes v mis d h room =
    let begun = mis_string_start (mis_take mis) in
    string_loop-Denotes v begun [] [] (bytes_left (mis_take mis)) _ d
      (record {
        written = tt;
        pending = tt;
        write_end = omega arith;
        read_end = omega arith;
        ordered = omega arith;
      })
      h (omega arith) (omega arith)
