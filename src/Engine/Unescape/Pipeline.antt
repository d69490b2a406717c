-- ===== src/Engine/Unescape/Pipeline.antt =====
-- The decoders of UnescapeInPlace, internal/engine/unescape.go, one after the other.
use glovebox.Prelude.{
  ◌≡◌, ◌↔◌, refl, sym, ap, ◌∙◌, inl, inr, Bool, true, false, Bytes, Option, none, some,
  Option-cases, if◌then◌else◌,
}
use glovebox.Engine.Unescape.Percent.{unescape_percent}
use glovebox.Engine.Unescape.FormPlus.{unescape_form_plus}
use glovebox.Engine.Unescape.Backslash.{unescape_backslash}
use glovebox.Engine.Unescape.{apply_decoder, unescape_html, unescape_in_place}

-- The flag stays down exactly when the decoder finds nothing, and then the text stays too.
apply_decoder_iff :
    (decode : Bytes → Option Bytes) (p : Bytes × Bool)
    → ((apply_decoder decode p).1 ≡ false) ↔ ((p.1 ≡ false) × (decode p.0 ≡ none))
unfolding apply_decoder
apply_decoder_iff decode p = elim (Option-cases (decode p.0)) [
  | inl e ↦ rw (apply_decoder, e) (λ h. (h, refl), λ h. h.0)
  | inr (d, e) ↦ rw (apply_decoder, e) (λ h. cc, λ h. cc)
]

apply_decoder_same :
    (decode : Bytes → Option Bytes) (p : Bytes × Bool)
    → decode p.0 ≡ none
    → (apply_decoder decode p).0 ≡ p.0
unfolding apply_decoder
apply_decoder_same decode p e = rw (apply_decoder, e) refl

flag_down : (p : Bytes × Bool) → (if p.1 then some p.0 else none) ≡ none → p.1 ≡ false
flag_down (out, true) h = cc
flag_down (out, false) h = refl

down_flag : (p : Bytes × Bool) → p.1 ≡ false → (if p.1 then some p.0 else none) ≡ none
down_flag p h = rw h refl

-- Nothing is returned exactly when none of the four decoders finds anything in the content itself.
unescape_in_place-none :
    (html : Bytes → Bytes) (content : Bytes)
    → (unescape_in_place html content ≡ none) ↔ (
        (unescape_form_plus content ≡ none)
        × (unescape_percent content ≡ none)
        × (unescape_backslash content ≡ none)
        × (unescape_html html content ≡ none))
unfolding unescape_in_place
unescape_in_place-none html content =
    let p1 = apply_decoder unescape_form_plus (content, false) in
    let p2 = apply_decoder unescape_percent p1 in
    let p3 = apply_decoder unescape_backslash p2 in
    let s1 = apply_decoder_iff unescape_form_plus (content, false) in
    let s2 = apply_decoder_iff unescape_percent p1 in
    let s3 = apply_decoder_iff unescape_backslash p2 in
    let s4 = apply_decoder_iff (unescape_html html) p3 in
    (
      λ h.
          let (f3, html_none) = s4.0 (flag_down _ h) in
          let (f2, backslash_none) = s3.0 f3 in
          let (f1, percent_none) = s2.0 f2 in
          let (f0, plus_none) = s1.0 f1 in
          let e1 = apply_decoder_same unescape_form_plus (content, false) plus_none in
          let e2 = apply_decoder_same unescape_percent p1 percent_none ∙ e1 in
          let e3 = apply_decoder_same unescape_backslash p2 backslash_none ∙ e2 in
          (
            plus_none,
            ap unescape_percent (sym e1) ∙ percent_none,
            ap unescape_backslash (sym e2) ∙ backslash_none,
            ap (unescape_html html) (sym e3) ∙ html_none,
          ),
      λ h.
          let e1 = apply_decoder_same unescape_form_plus (content, false) h.0 in
          let n2 = ap unescape_percent e1 ∙ h.1 in
          let e2 = apply_decoder_same unescape_percent p1 n2 ∙ e1 in
          let n3 = ap unescape_backslash e2 ∙ h.2 in
          let e3 = apply_decoder_same unescape_backslash p2 n3 ∙ e2 in
          down_flag _
            (s4.1 (s3.1 (s2.1 (s1.1 (refl, h.0), n2), n3), ap (unescape_html html) e3 ∙ h.3)),
    )
