-- ===== src/Output/Printer/Quoted.antt =====
-- src/output.c: strings printed between quotes.
use jsnpg.Base.{ℕ, List, [], ◌∷◌, ◌++◌, append_assoc, Bool, true, false, ◌≡◌, refl, ◌∙◌, ap, length}
use jsnpg.Base.Memory.{at_list}
use jsnpg.Output.Buffer.{Did, ◌then_do◌}
use jsnpg.Output.Buffer.Grows.{Contains, mos_put-Contains, mos_new-Contains}
use jsnpg.Output.Stream.{Jos, jos_new, jos_put, jos_prefix}
use jsnpg.Output.Scan.{jos_scan_escape}
use jsnpg.Output.Scan.Reference.{Text, escaped, Printed}
use jsnpg.Output.Scan.Prints.{jos_scan_escape-escaped}
use jsnpg.Output.Printer.{put_quoted, print_string}

-- one call behind another
pub then_do-Printed :
    (jos : Jos) (d : Did Jos) (f : Jos → Did Jos) (text text' : List ℕ)
    → Printed jos d text
    → Printed d.state (f d.state) text'
    → Printed jos (d then_do f) text'
then_do-Printed jos d f text text' p q = rw (p.success) (record {
  success = q.success;
  contains = q.contains;
  only_mos = q.only_mos ∙ ap (λ (k : Jos). record k { mos = (f d.state).state.mos }) p.only_mos;
})

abbrev pub quoted : List ℕ → List ℕ
quoted text = b'"' ∷ (escaped text ++ b'"' ∷ [])

module _ (grants : ℕ → Bool) (granted : (n : ℕ) → grants n ≡ true) where
  pub jos_put-Printed :
      (jos : Jos) (out : List ℕ) (chr : ℕ)
      → Contains jos.mos out
      → Printed jos (jos_put grants jos chr) (out ++ chr ∷ [])
  jos_put-Printed jos out chr c =
      let p = mos_put-Contains grants granted jos.mos out chr c in
      record { success = p.0; contains = p.1; only_mos = refl }

  -- A text that may be put out is printed between quotes, escaped.
  pub put_quoted-Printed :
      (jos : Jos) (out text : List ℕ)
      → Text jos.validate_utf8 text
      → Contains jos.mos out
      → Printed jos (put_quoted grants jos text) (out ++ quoted text)
  unfolding put_quoted
  put_quoted-Printed jos out text t c =
      let a = jos_put-Printed jos out b'"' c in
      let j = (jos_put grants jos b'"').state in
      let b = jos_scan_escape-escaped grants j (out ++ b'"' ∷ []) text granted t a.contains in
      let scan = jos_scan_escape grants (at_list text) (length text) in
      let e = jos_put-Printed (scan j).state ((out ++ b'"' ∷ []) ++ escaped text) b'"' b.contains in
      let last = λ (k : Jos). jos_put grants k b'"' in
      let rest =
        then_do-Printed j (scan j) last ((out ++ b'"' ∷ []) ++ escaped text)
          (((out ++ b'"' ∷ []) ++ escaped text) ++ b'"' ∷ []) b e in
      let all =
        then_do-Printed jos (jos_put grants jos b'"') (λ k. scan k then_do last) (out ++ b'"' ∷ [])
          (((out ++ b'"' ∷ []) ++ escaped text) ++ b'"' ∷ []) a rest in
      simp append_assoc at all

  -- On a fresh stream that does not indent, a string is all that is printed.
  pub print_string-Contains :
      (v : Bool) (text : List ℕ)
      → Text v text
      → ((print_string grants (jos_new 0 v) text).success ≡ true)
        × Contains (print_string grants (jos_new 0 v) text).state.mos (quoted text)
  unfolding print_string jos_new jos_prefix
  print_string-Contains v text t =
      let j = record (jos_new 0 v) { comma = true; key = false } in
      let p = put_quoted-Printed j [] text t (mos_new-Contains 0) in (p.success, p.contains)
