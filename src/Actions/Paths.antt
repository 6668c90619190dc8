-- ===== src/Actions/Paths.antt =====
-- The path of an inline comment (crates/patchwright-core/src/github_actions.rs).
use patchwright.Prelude.{
  ℕ, ◌≡◌, ◌∙◌, sym, ap, subst, ◌∷◌, true, ◌||◌, ok, err, >>=-eq-ok, >>-eq-ok, reject_if,
  ok-injective, arith, ◌==◌, nat_eq,
}
use patchwright.Prelude.Text.{Text, codes, is_whitespace, starts_with, contains_text, trim}
use patchwright.Prelude.Text.Laws.{starts_with-trim}
use patchwright.Actions.{InlineReviewComment, invalid_field}
use patchwright.Actions.Fields.{validate_text, validate_body, is_bad_text}
use patchwright.Actions.Constructors.{new_inline_comment}

-- The path that an accepted comment keeps is the trimmed one.
pub path-eq :
    (path : Text) (line : ℕ) (body : Text) (c : InlineReviewComment)
    → new_inline_comment path line body ≡ ok c
    → c.path ≡ trim path
unfolding new_inline_comment validate_text
path-eq path line body c e =
    let rest =
      >>-eq-ok
        (reject_if (line == 0 || starts_with path (codes "/") || contains_text path (codes "..")) _)
        _ e in
    let (p, ep, e) = >>=-eq-ok (validate_text path 1024 "path") _ rest.1 in
    let (b, eb, e) = >>=-eq-ok (validate_body body) _ e in
    let trimmed = >>-eq-ok (reject_if (is_bad_text (trim path) 1024) _) (ok (trim path)) ep in
    sym (ap (λ (c : InlineReviewComment). c.path) (ok-injective e)) ∙ sym (ok-injective trimmed.1)

-- A comment whose path is white space and then a slash is refused no longer once its path is
-- trimmed: the path that is kept is absolute, and the comment, written and read again, is refused.
pub new_inline_comment-absolute :
    (blank : ℕ) (rest : Text) (line : ℕ) (body : Text) (c : InlineReviewComment)
    → is_whitespace blank ≡ true
    → new_inline_comment (blank ∷ b'/' ∷ rest) line body ≡ ok c
    → (starts_with c.path (codes "/") ≡ true)
      × (new_inline_comment c.path c.line c.body ≡ err (invalid_field "inlineComment"))
unfolding new_inline_comment
new_inline_comment-absolute blank rest line body c white e =
    let kept = path-eq (blank ∷ b'/' ∷ rest) line body c e in
    let slash : starts_with c.path (codes "/") ≡ true =
      subst (λ path. starts_with path (codes "/") ≡ true) (sym kept)
        (starts_with-trim blank rest white) in
    (slash, ground (arith, slash))
