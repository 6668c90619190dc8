-- ===== src/Actions/Comments.antt =====
-- Inline comments that are written and read again
-- (crates/patchwright-core/src/github_actions.rs).
use patchwright.Prelude.{
  ℕ, Bool, ◌≡◌, sym, refl, subst, List, [], ◌∷◌, true, false, any, map, ◌||◌, ok, err, >>=-eq-ok,
  >>-eq-ok, reject_if, ◌>>=◌, ok-injective, arith, ◌==◌, nat_eq, if◌then◌else◌, reject_if-eq-ok,
  Bool-cases, inl, inr,
}
use patchwright.Prelude.Text.{Text, codes, starts_with, contains_text}
use patchwright.Prelude.Text.Laws.{contains_text-trim}
use patchwright.Actions.{InlineReviewComment, InlineReviewCommentWire, invalid_field}
use patchwright.Actions.Fields.{Validated, validate_text, validate_body}
use patchwright.Actions.Constructors.{new_inline_comment}
use patchwright.Actions.Wire.{read_comment, read_comments, write_comment}
use patchwright.Actions.Settling.{validate_body-Settles, validate_text-Settles}
use patchwright.Actions.Paths.{path-eq}

-- A comment whose path is absolute.
abbrev pub is_absolute : InlineReviewComment → Bool
is_absolute c = starts_with c.path (codes "/")

abbrev pub refused : {A : Type 0} → Validated A
refused = err (invalid_field "inlineComment")

-- The fields of a comment that was accepted.
record IsRead (c : InlineReviewComment) : Type 0 where
  line : (c.line == 0) ≡ false
  inside : contains_text c.path (codes "..") ≡ false
  path : validate_text c.path 1024 "path" ≡ ok c.path
  body : validate_body c.body ≡ ok c.body

guarded : (a b c : Bool) → (a || b || c) ≡ false → (a ≡ false) × (c ≡ false)
guarded a b c h = (ground arith, ground arith)

new_inline_comment-IsRead :
    (path : Text) (line : ℕ) (body : Text) (c : InlineReviewComment)
    → new_inline_comment path line body ≡ ok c
    → IsRead c
unfolding new_inline_comment
new_inline_comment-IsRead path line body c e =
    let kept = path-eq path line body c e in
    let rest =
      >>-eq-ok
        (reject_if (line == 0 || starts_with path (codes "/") || contains_text path (codes "..")) _)
        _ e in
    let tests =
      guarded (line == 0) (starts_with path (codes "/")) (contains_text path (codes ".."))
        (reject_if-eq-ok _ _ rest.0) in
    let (p, ep, e) = >>=-eq-ok (validate_text path 1024 "path") _ rest.1 in
    let (b, eb, e) = >>=-eq-ok (validate_body body) _ e in
    let same = ok-injective e in
    record {
      line = subst (λ (c : InlineReviewComment). (c.line == 0) ≡ false) same tests.0;
      inside =
          subst (λ t. contains_text t (codes "..") ≡ false) (sym kept)
            (contains_text-trim path b'.' (codes ".") tests.1);
      path =
          subst (λ (c : InlineReviewComment). validate_text c.path 1024 "path" ≡ ok c.path) same
            ((validate_text-Settles path 1024 "path").settled p ep);
      body =
          subst (λ (c : InlineReviewComment). validate_body c.body ≡ ok c.body) same
            ((validate_body-Settles body).settled b eb);
    }

-- A comment that was read is read again, unless its path is absolute by now.
read_comment-write_comment :
    (c : InlineReviewComment)
    → IsRead c
    → read_comment (write_comment c) ≡ (if is_absolute c then refused else ok c)
unfolding read_comment new_inline_comment
read_comment-write_comment c h = elim (Bool-cases (starts_with c.path (codes "/"))) [
  | inl slash ↦ rw (h.line, slash) refl
  | inr relative ↦ rw (h.line, relative, h.inside, h.path, h.body) refl
]

one_more :
    (a b : Bool) (c : InlineReviewComment) (cs : List InlineReviewComment)
    {m : Validated InlineReviewComment} {n : Validated (List InlineReviewComment)}
    → m ≡ (if a then refused else ok c)
    → n ≡ (if b then refused else ok cs)
    → (m >>= λ c. n >>= λ cs. ok (c ∷ cs)) ≡ (if a || b then refused else ok (c ∷ cs))
one_more true b c cs h k = rw h refl
one_more false true c cs h k = rw (h, k) refl
one_more false false c cs h k = rw (h, k) refl

-- Comments that were read are read again, unless the path of one is absolute by now.
pub read_comments-map :
    (wires : List InlineReviewCommentWire) (comments : List InlineReviewComment)
    → read_comments wires ≡ ok comments
    → read_comments (map write_comment comments)
      ≡ (if any comments is_absolute then refused else ok comments)
unfolding read_comments read_comment
read_comments-map [] comments e =
    subst
      (λ cs. read_comments (map write_comment cs) ≡ (if any cs is_absolute then refused else ok cs))
      (ok-injective e) refl
read_comments-map (wire ∷ wires) comments e =
    let (c, ec, e) = >>=-eq-ok (new_inline_comment wire.path wire.line wire.body) _ e in
    let (cs, ecs, e) = >>=-eq-ok (read_comments wires) _ e in
    subst
      (λ cs. read_comments (map write_comment cs) ≡ (if any cs is_absolute then refused else ok cs))
      (ok-injective e)
      (one_more (is_absolute c) (any cs is_absolute) c cs
        (read_comment-write_comment c
          (new_inline_comment-IsRead wire.path wire.line wire.body c ec))
        (read_comments-map wires cs ecs))
