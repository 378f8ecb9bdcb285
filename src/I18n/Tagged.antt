-- ===== src/I18n/Tagged.antt =====
-- backend/internal/i18ntext/i18ntext.go: reading back a field that was written with a tag.
use mathlib.Core.List.{append_assoc}
use urara_vision.Base.{
  ℕ, zero, ◌-◌, ◌≡◌, ◌≢◌, refl, sym, ap, ◌∙◌, inl, inr, Bool, true, false, not, ◌&&◌, ◌||◌, Option,
  none, some, List, [], ◌∷◌, ◌++◌, arith, Bool-cases, if◌then◌else◌, any, nat_eq, is_empty, All,
  length, length-append,
}
use urara_vision.Base.Text.{Text, ◌==◌, ==_iff, ==_refl, upper_byte, trim_space}
use urara_vision.Base.Maps.{get, get-put}
use urara_vision.I18n.{
  Splitter, Field, is_blank, skip_blanks, strip_tag, strip_close, close_tag, closed, push_byte,
  match_tags, match_marker, segments, add, add_body, add_parts, blank_field, split, in_lang,
  normalise_tag, begin_part,
}
use urara_vision.I18n.Laws.{in_lang-split}

-- A byte that may stand in a tag.
abbrev pub plain : ℕ → Bool
plain c = not (nat_eq c b']') && not (is_blank c)

abbrev pub all_plain : Text → Bool
all_plain [] = true
all_plain (c ∷ s) = plain c && all_plain s

abbrev pub has_open : Text → Bool
has_open [] = false
has_open (c ∷ s) = nat_eq c b'[' || has_open s

-- The same tag in any case.
abbrev pub same_tag : Text → Text → Bool
same_tag [] [] = true
same_tag (a ∷ s) (b ∷ t) = nat_eq (upper_byte a) (upper_byte b) && same_tag s t
same_tag _ _ = false

skip_blanks-plain :
    (t : Text) (b : Text) → all_plain t ≡ true → skip_blanks (t ++ b']' ∷ b) ≡ t ++ b']' ∷ b
unfolding skip_blanks
skip_blanks-plain [] b h = refl
skip_blanks-plain (c ∷ t) b h = ground arith

closed-push_byte :
    (c : ℕ) (m : Text) (o : Option Text) → closed (c ∷ m) o ≡ push_byte c (closed m o)
closed-push_byte c m none = refl
closed-push_byte c m (some x) = refl

close_tag-push_byte :
    (c : ℕ) (o : Option (Text × Text)) → close_tag (push_byte c o) ≡ push_byte c (close_tag o)
close_tag-push_byte c none = refl
close_tag-push_byte c (some (m, rest)) = closed-push_byte c m (strip_close (skip_blanks rest))

push_byte-if :
    (c : ℕ) (x : Bool) (t b : Text)
    → push_byte c (if x then some (t, b) else none) ≡ (if x then some (c ∷ t, b) else none)
push_byte-if c true t b = refl
push_byte-if c false t b = refl

-- One alternative against a written tag that is closed at once.
close_tag-strip_tag :
    (alt tag b : Text)
    → all_plain alt ≡ true
    → all_plain tag ≡ true
    → close_tag (strip_tag alt (tag ++ b']' ∷ b))
      ≡ (if same_tag alt tag then some (tag, b) else none)
unfolding strip_tag strip_close
close_tag-strip_tag [] [] b p q = unfold skip_blanks in refl
close_tag-strip_tag [] (c ∷ t) b p q = unfold skip_blanks in ground arith
close_tag-strip_tag (a ∷ s) [] b p q = ground arith
close_tag-strip_tag (a ∷ s) (c ∷ t) b p q =
    elim (Bool-cases (nat_eq (upper_byte a) (upper_byte c))) [
      | inr n ↦ rw n refl
      | inl y ↦ rw y (
          close_tag-push_byte c (strip_tag s (t ++ b']' ∷ b))
          ∙ ap (push_byte c) (close_tag-strip_tag s t b (ground arith) (ground arith))
          ∙ push_byte-if c (same_tag s t) t b)
    ]

match_tags-plain :
    (tags : List Text) (tag b : Text)
    → All (λ t. all_plain t ≡ true) tags
    → all_plain tag ≡ true
    → any (λ t. same_tag t tag) tags ≡ true
    → match_tags tags (tag ++ b']' ∷ b) ≡ some (tag, b)
unfolding match_tags any
match_tags-plain [] tag b h p m = cc
match_tags-plain (t ∷ ts) tag b h p m =
    ground (arith, close_tag-strip_tag t tag b h.0 p, match_tags-plain ts tag b h.1 p)

segments-plain : (tags : List Text) (s : Text) → has_open s ≡ false → segments tags zero s ≡ (s, [])
unfolding segments match_marker
segments-plain tags [] h = refl
segments-plain tags (c ∷ s) h = ground (arith, segments-plain tags s)

segments-skip :
    (tags : List Text) (x s : Text) → segments tags (length x) (x ++ s) ≡ segments tags zero s
unfolding segments
segments-skip tags [] s = refl
segments-skip tags (c ∷ x) s = segments-skip tags x s

module _ (tags : List Text) (tag b : Text) (tags_plain : All (λ t. all_plain t ≡ true) tags)
    (tag_plain : all_plain tag ≡ true) (known : any (λ t. same_tag t tag) tags ≡ true)
    (b_closed : has_open b ≡ false) where
  match_marker-tag : match_marker tags (b'[' ∷ tag ++ b']' ∷ b) ≡ some (tag, b)
  unfolding match_marker
  match_marker-tag =
      ap (match_tags tags) (skip_blanks-plain tag b tag_plain)
      ∙ match_tags-plain tags tag b tags_plain tag_plain known

  segments-rest : segments tags (length (tag ++ b']' ∷ b) - length b) (tag ++ b']' ∷ b) ≡ (b, [])
  segments-rest =
      let close : Text = tag ++ b']' ∷ [] in
      let passed : length (tag ++ b']' ∷ b) - length b ≡ length close =
        omega (arith, length-append tag (b']' ∷ b), length-append tag (b']' ∷ [])) in
      ap (λ (n : ℕ). segments tags n (tag ++ b']' ∷ b)) passed
      ∙ ap (segments tags (length close)) (sym (append_assoc tag (b']' ∷ []) b))
      ∙ segments-skip tags close b
      ∙ segments-plain tags b b_closed

  segments-tag : segments tags zero (b'[' ∷ tag ++ b']' ∷ b) ≡ ([], (tag, b) ∷ [])
  unfolding segments
  segments-tag = rw (match_marker-tag, segments) (ap (begin_part tag) segments-rest)

  segments-tagged :
      (p : Text)
      → has_open p ≡ false
      → segments tags zero (p ++ b'[' ∷ tag ++ b']' ∷ b) ≡ (p, (tag, b) ∷ [])
  unfolding segments match_marker
  segments-tagged [] h = segments-tag
  segments-tagged (c ∷ p) h = ground (arith, segments-tagged p)

-- What `add` puts under its language, and what it leaves alone.
get-add :
    (lang text : Text) (f : Field) (l : Text)
    → get lang f.by_lang ≡ none
    → trim_space text ≢ []
    → get l (add lang text f).by_lang
      ≡ (if lang == l then some (trim_space text) else get l f.by_lang)
unfolding add
get-add lang text f l e n =
    rw (e, add_body)
      (ground (arith, ==_iff (trim_space text) [], get-put lang l (trim_space text) f.by_lang))

some_tag : (tags : List Text) (q : Text → Bool) → any q tags ≡ true → is_empty tags ≡ false
unfolding any
some_tag [] q h = cc
some_tag (t ∷ ts) q h = refl

module _ (sp : Splitter) (p tag b : Text) (tags_plain : All (λ t. all_plain t ≡ true) sp.supported)
    (tag_plain : all_plain tag ≡ true) (known : any (λ t. same_tag t tag) sp.supported ≡ true)
    (p_closed : has_open p ≡ false) (b_closed : has_open b ≡ false) (p_written : trim_space p ≢ [])
    (b_written : trim_space b ≢ []) (foreign : normalise_tag tag ≢ sp.primary) where
  abbrev written : Text
  written = p ++ b'[' ∷ tag ++ b']' ∷ b

  split-written :
      split sp written ≡ add (normalise_tag tag) b (add sp.primary p (blank_field sp.primary))
  unfolding split add_parts
  split-written =
      rw
        (
          some_tag sp.supported (λ t. same_tag t tag) known,
          segments-tagged sp.supported tag b tags_plain tag_plain known b_closed p p_closed,
        )
        refl

  get-written :
      (l : Text)
      → get l (split sp written).by_lang ≡ (
          if normalise_tag tag == l
          then some (trim_space b)
          else if sp.primary == l
          then some (trim_space p)
          else none)
  get-written l =
      let f : Field = blank_field sp.primary in
      let none_yet : (k : Text) → get k f.by_lang ≡ none = λ k. unfold get in refl in
      ap (λ (z : Field). get l z.by_lang) split-written
      ∙ ground (
        arith,
        ==_iff sp.primary (normalise_tag tag),
        none_yet l,
        get-add sp.primary p f (normalise_tag tag) (none_yet sp.primary) p_written,
        none_yet (normalise_tag tag),
        get-add sp.primary p f l (none_yet sp.primary) p_written,
        get-add (normalise_tag tag) b (add sp.primary p f) l,
      )

  -- A field written as a text, a marker of a supported tag and a second text, neither of which is
  -- blank or holds a bracket, is read back in the tag's language, which is not the primary one, as
  -- the second text trimmed.
  pub in_lang-tag :
      (lang : Text)
      → normalise_tag lang ≡ normalise_tag tag
      → in_lang (split sp written) lang ≡ trim_space b
  in_lang-tag lang e =
      in_lang-split sp written lang (trim_space b)
        (inl (rw (e, get-written (normalise_tag tag), ==_refl (normalise_tag tag)) refl))

  -- The same field is read back in the primary language as the first text trimmed.
  pub in_lang-primary :
      (lang : Text)
      → normalise_tag lang ≡ sp.primary
      → in_lang (split sp written) lang ≡ trim_space p
  in_lang-primary lang e = in_lang-split sp written lang (trim_space p) (
      inl (
        rw (e) (
          get-written sp.primary
          ∙ ground (arith, ==_iff (normalise_tag tag) sp.primary, ==_refl sp.primary))))
