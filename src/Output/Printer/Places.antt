-- ===== src/Output/Printer/Places.antt =====
-- src/output.c: what stands on the output stream at each place of a text, and the calls that put
-- bytes and the indentation.
use jsnpg.Base.{
  ℕ, zero, suc, ◌*◌, List, [], ◌∷◌, ◌++◌, append_assoc, Bool, true, false, ◌≡◌, refl, sym, ◌∙◌, ap,
  subst, inl, inr, ltb, if◌then◌else◌, replicate, Bool-cases,
}
use jsnpg.Json.Grammar.{Blank}
use jsnpg.Output.Buffer.{Did, ◌then_do◌, mos_putn}
use jsnpg.Output.Buffer.Grows.{Contains, mos_putn-Contains}
use jsnpg.Output.Stream.{Jos, on_mos, jos_put, jos_puts, jos_indent}
use jsnpg.Output.Scan.Reference.{Printed, jos_puts-Printed}
use jsnpg.Output.Printer.Quoted.{jos_put-Printed}

-- The stream holds `out`, with these flags.
pub record At (jos : Jos) (v : Bool) (level : ℕ) (comma key : Bool) (out : List ℕ) : Type 0 where
  pub validates : jos.validate_utf8 ≡ v
  pub level_is : jos.level ≡ level
  pub comma_is : jos.comma ≡ comma
  pub key_is : jos.key ≡ key
  pub contains : Contains jos.mos out

-- A call that succeeds.
abbrev pub Good : Did Jos → Bool → ℕ → Bool → Bool → List ℕ → Type 0
Good d v level comma key out = (d.success ≡ true) × At d.state v level comma key out

-- what separates an item from what stands before it
abbrev pub lead : Bool → Bool → List ℕ → List ℕ
lead comma true blanks = []
lead true false blanks = b',' ∷ blanks
lead false false blanks = blanks

pub then_do-Good :
    (d : Did Jos) (f : Jos → Did Jos) {v : Bool} {l : ℕ} {c k : Bool} {out : List ℕ}
    → d.success ≡ true
    → Good (f d.state) v l c k out
    → Good (d then_do f) v l c k out
then_do-Good d f s g = rw s g

pub Printed-Good :
    (jos : Jos) (d : Did Jos) (text : List ℕ) {v : Bool} {l : ℕ} {c k : Bool} {out : List ℕ}
    → At jos v l c k out
    → Printed jos d text
    → Good d v l c k text
Printed-Good jos d text at p = (
  p.success,
  record {
    validates = ap (λ (j : Jos). j.validate_utf8) p.only_mos ∙ at.validates;
    level_is = ap (λ (j : Jos). j.level) p.only_mos ∙ at.level_is;
    comma_is = ap (λ (j : Jos). j.comma) p.only_mos ∙ at.comma_is;
    key_is = ap (λ (j : Jos). j.key) p.only_mos ∙ at.key_is;
    contains = p.contains;
  },
)

-- the flags that the end of a container and the end of a key leave
pub closed :
    (jos : Jos) (out : List ℕ) {v : Bool} {l : ℕ} {c k : Bool}
    → At jos v l c k out
    → At (record jos { comma = ltb 0 jos.level }) v l (ltb 0 l) k out
closed jos out at = record {
  validates = at.validates;
  level_is = at.level_is;
  comma_is = ap (λ n. ltb 0 n) at.level_is;
  key_is = at.key_is;
  contains = at.contains;
}

pub keyed :
    (jos : Jos) (out : List ℕ) {v : Bool} {l : ℕ} {c k : Bool}
    → At jos v l c k out
    → At (record jos { key = true }) v l c true out
keyed jos out at = record {
  validates = at.validates;
  level_is = at.level_is;
  comma_is = at.comma_is;
  key_is = refl;
  contains = at.contains;
}

Blank-replicate : (n : ℕ) → Blank (replicate n b' ')
Blank-replicate zero = tt
Blank-replicate (suc n) = (inl refl, Blank-replicate n)

-- a property of the branch that a test takes
pub if-true :
    {A : Type 0} {x : A} (y : A) (P : A → Type 0) {b : Bool}
    → b ≡ true
    → P x
    → P (if b then x else y)
if-true {x = x} y P e p = subst (λ t. P (if t then x else y)) (sym e) p

pub if-false :
    {A : Type 0} (x : A) {y : A} (P : A → Type 0) {b : Bool}
    → b ≡ false
    → P y
    → P (if b then x else y)
if-false x {y = y} P e p = subst (λ t. P (if t then x else y)) (sym e) p

pub lead_comma : (c : Bool) (a : List ℕ) → (if c then b',' ∷ [] else []) ++ a ≡ lead c false a
lead_comma true a = refl
lead_comma false a = refl

module _ (grants : ℕ → Bool) (granted : (n : ℕ) → grants n ≡ true) where
  pub put-Good :
      (jos : Jos) (chr : ℕ) {v : Bool} {l : ℕ} {c k : Bool} (out : List ℕ)
      → At jos v l c k out
      → Good (jos_put grants jos chr) v l c k (out ++ chr ∷ [])
  put-Good jos chr out at =
      Printed-Good jos _ (out ++ chr ∷ []) at
        (jos_put-Printed grants granted jos out chr at.contains)

  pub puts-Good :
      (jos : Jos) (string : List ℕ) {v : Bool} {l : ℕ} {c k : Bool} (out : List ℕ)
      → At jos v l c k out
      → Good (jos_puts grants jos string) v l c k (out ++ string)
  puts-Good jos string out at =
      Printed-Good jos _ (out ++ string) at
        (jos_puts-Printed grants granted jos out string at.contains)

  spaces-Good :
      (jos : Jos) (n : ℕ) {v : Bool} {l : ℕ} {c k : Bool} (out : List ℕ)
      → At jos v l c k out
      → Good (on_mos jos (mos_putn grants jos.mos b' ' n)) v l c k (out ++ replicate n b' ')
  spaces-Good jos n out at =
      let p = mos_putn-Contains grants granted jos.mos out b' ' n at.contains in
      (
        p.0,
        record {
          validates = at.validates;
          level_is = at.level_is;
          comma_is = at.comma_is;
          key_is = at.key_is;
          contains = p.1;
        },
      )

  pub indent-Good :
      (jos : Jos) {v : Bool} {l : ℕ} {c k : Bool} (out : List ℕ)
      → At jos v l c k out
      → (a : List ℕ) × Blank a × Good (jos_indent grants jos) v l c k (out ++ a)
  unfolding jos_indent
  indent-Good jos {v = v} {l = l} {c = c} {k = k} out at =
      let n = jos.indent * jos.level in
      let padded = λ (j : Jos). on_mos j (mos_putn grants j.mos b' ' (j.indent * j.level)) in
      elim (Bool-cases jos.nl) [
        | inl old ↦
            let p = put-Good jos b'\n' out at in
            let j = (jos_put grants jos b'\n').state in
            let q =
              rw (append_assoc out (b'\n' ∷ []) (replicate n b' ')) at
                (spaces-Good j n (out ++ b'\n' ∷ []) p.1) in
            (
              b'\n' ∷ replicate n b' ',
              (inr (inl refl), Blank-replicate n),
              if-true _ (λ d. Good (d then_do padded) v l c k (out ++ b'\n' ∷ replicate n b' ')) old
                  (then_do-Good (jos_put grants jos b'\n') padded p.0 q),
            )
        | inr new ↦
            let j = record jos { nl = true } in
            let at' : At j v l c k out = record {
              validates = at.validates;
              level_is = at.level_is;
              comma_is = at.comma_is;
              key_is = at.key_is;
              contains = at.contains;
            } in
            (
              replicate n b' ',
              Blank-replicate n,
              if-false _ (λ d. Good (d then_do padded) v l c k (out ++ replicate n b' ')) new
                  (spaces-Good j n out at'),
            )
      ]
