-- ===== src/Parser/Grammar.antt =====
-- The body of a JSON string (between its quotes) and the bytes that it denotes, stated without
-- reference to the code of src/parser.c.
use jsnpg.Base.{ℕ, ◌+◌, ◌*◌, ◌≤◌, ◌<◌, List, [], ◌∷◌, ◌++◌, Bool, true, false, ◌≡◌, ◌≢◌, ◌⊎◌}
use jsnpg.Utf8.{is_valid_codepoint, utf8_encode}

-- a hexadecimal digit and its value
pub data Hex (c d : ℕ) : Type 0 where
  decimal : d < 10 → c ≡ b'0' + d → Hex c d
  upper : 10 ≤ d → d < 16 → c + 10 ≡ b'A' + d → Hex c d
  lower : 10 ≤ d → d < 16 → c + 10 ≡ b'a' + d → Hex c d

-- four digits and their value
pub data Hex4 : List ℕ → ℕ → Type 0 where
  hex4 :
      {c₁ c₂ c₃ c₄ d₁ d₂ d₃ d₄ value : ℕ}
      → Hex c₁ d₁
      → Hex c₂ d₂
      → Hex c₃ d₃
      → Hex c₄ d₄
      → value ≡ d₁ * 4096 + d₂ * 256 + d₃ * 16 + d₄
      → Hex4 (c₁ ∷ c₂ ∷ c₃ ∷ c₄ ∷ []) value

-- the letter behind a backslash and the character that both denote
pub data Short (e x : ℕ) : Type 0 where
  quote : e ≡ b'"' → x ≡ 0x22 → Short e x
  slash : e ≡ b'/' → x ≡ 0x2F → Short e x
  backslash : e ≡ b'\\' → x ≡ 0x5C → Short e x
  backspace : e ≡ b'b' → x ≡ 0x08 → Short e x
  form_feed : e ≡ b'f' → x ≡ 0x0C → Short e x
  line_feed : e ≡ b'n' → x ≡ 0x0A → Short e x
  carriage_return : e ≡ b'r' → x ≡ 0x0D → Short e x
  tab : e ≡ b't' → x ≡ 0x09 → Short e x

-- an escape and its codepoint; one outside the basic plane is written as a surrogate pair
pub data Escape : List ℕ → ℕ → Type 0 where
  short : {e x : ℕ} → Short e x → Escape (b'\\' ∷ e ∷ []) x
  unicode :
      {digits : List ℕ} {cp : ℕ}
      → Hex4 digits cp
      → (cp < 0xD800) ⊎ (0xDFFF < cp)
      → Escape (b'\\' ∷ b'u' ∷ digits) cp
  pair :
      {digits digits' : List ℕ} {high low cp : ℕ}
      → Hex4 digits high
      → Hex4 digits' low
      → 0xD800 ≤ high
      → high < 0xDC00
      → 0xDC00 ≤ low
      → low < 0xE000
      → cp + 0xD800 * 1024 + 0xDC00 ≡ high * 1024 + low + 0x10000
      → Escape (b'\\' ∷ b'u' ∷ (digits ++ b'\\' ∷ b'u' ∷ digits')) cp

-- A body and the bytes it denotes. Where UTF-8 is checked, what is not ASCII stands in encodings
-- of valid codepoints; where it is not, any byte from 0x80 on stands for itself.
pub data Denotes (validate_utf8 : Bool) : List ℕ → List ℕ → Type 0 where
  nothing : Denotes validate_utf8 [] []
  plain :
      {body text : List ℕ} (c : ℕ)
      → 0x20 ≤ c
      → c ≢ b'"'
      → c ≢ b'\\'
      → (validate_utf8 ≡ false) ⊎ (c < 0x80)
      → Denotes validate_utf8 body text
      → Denotes validate_utf8 (c ∷ body) (c ∷ text)
  sequence :
      {body text : List ℕ} (cp : ℕ)
      → validate_utf8 ≡ true
      → 0x80 ≤ cp
      → is_valid_codepoint cp ≡ true
      → Denotes validate_utf8 body text
      → Denotes validate_utf8 (utf8_encode cp ++ body) (utf8_encode cp ++ text)
  escaped :
      {body text esc : List ℕ} (cp : ℕ)
      → Escape esc cp
      → Denotes validate_utf8 body text
      → Denotes validate_utf8 (esc ++ body) (utf8_encode cp ++ text)
