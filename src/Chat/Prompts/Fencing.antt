-- ===== src/Chat/Prompts/Fencing.antt =====
-- backend/internal/chat/agent/prompts.go: what no fenced text can hold.
use urara_vision.Base.{
  ℕ, ◌≡◌, ◌≢◌, refl, Bool, true, false, [], ◌∷◌, ◌&&◌, ◌||◌, arith, nat_eq, inl, inr, Bool-cases,
  ◌∙◌, ap,
}
use urara_vision.Base.Text.{Text}
use urara_vision.Chat.Prompts.{
  fence_tag, is_blank, skip_blanks, skip_slash, has_prefix_fold, tag_follows, escape_tags,
}

-- A text in which some `<` begins the tag of a fence, opened or closed, in any case.
unfoldable pub has_tag : Text → Bool
unfolding tag_follows
has_tag [] = false
has_tag (c ∷ s) = nat_eq c b'<' && tag_follows s || has_tag s

-- A text without `<`.
abbrev pub NoAngle : Text → Type 0
NoAngle [] = Unit
NoAngle (p ∷ ps) = (p ≢ b'<') × (p ≢ b'&') × NoAngle ps

angle_not_blank : (c : ℕ) → nat_eq c b'<' ≡ true → is_blank c ≡ false
angle_not_blank c h = ground arith

skip_blanks-escape_tags : (s : Text) → skip_blanks (escape_tags s) ≡ escape_tags (skip_blanks s)
unfolding skip_blanks escape_tags
skip_blanks-escape_tags [] = refl
skip_blanks-escape_tags (c ∷ s) = elim (Bool-cases (nat_eq c b'<' && tag_follows s)) [
  | inl e ↦ rw (angle_not_blank c (ground arith), e) refl
  | inr e ↦ elim (Bool-cases (is_blank c)) [
    | inl b ↦ rw (e, b) (skip_blanks-escape_tags s)
    | inr b ↦ rw (e, b, e) refl
  ]
]

skip_slash-escape_tags : (s : Text) → skip_slash (escape_tags s) ≡ escape_tags (skip_slash s)
unfolding skip_slash escape_tags
skip_slash-escape_tags [] = refl
skip_slash-escape_tags (c ∷ s) = ground arith

has_prefix_fold-escape_tags :
    (s p : Text) → NoAngle p → has_prefix_fold (escape_tags s) p ≡ has_prefix_fold s p
unfolding has_prefix_fold escape_tags
has_prefix_fold-escape_tags s [] h = refl
has_prefix_fold-escape_tags [] (p ∷ ps) h = refl
has_prefix_fold-escape_tags (c ∷ s) (p ∷ ps) h =
    ground (arith, has_prefix_fold-escape_tags s ps h.2)

tag-NoAngle : NoAngle fence_tag
tag-NoAngle = ground arith

tag_follows-escape_tags : (s : Text) → tag_follows (escape_tags s) ≡ tag_follows s
unfolding tag_follows
tag_follows-escape_tags s =
    ap (λ (t : Text). has_prefix_fold (skip_blanks (skip_slash t)) fence_tag)
      (skip_blanks-escape_tags s)
    ∙ ap (λ (t : Text). has_prefix_fold (skip_blanks t) fence_tag)
        (skip_slash-escape_tags (skip_blanks s))
    ∙ ap (λ (t : Text). has_prefix_fold t fence_tag)
        (skip_blanks-escape_tags (skip_slash (skip_blanks s)))
    ∙ has_prefix_fold-escape_tags (skip_blanks (skip_slash (skip_blanks s))) fence_tag tag-NoAngle

-- What stands in a fence holds no tag that closes or opens a fence.
pub has_tag-escape_tags : (content : Text) → has_tag (escape_tags content) ≡ false
unfolding has_tag escape_tags
has_tag-escape_tags [] = refl
has_tag-escape_tags (c ∷ s) = ground (arith, tag_follows-escape_tags s, has_tag-escape_tags s)
