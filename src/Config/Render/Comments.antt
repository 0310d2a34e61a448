-- ===== src/Config/Render/Comments.antt =====
-- How the parser of crates/avash/src/lib.rs reads the tags and the folder that `render_host_block`
-- writes as comments.
use avash.Base.{
  ℕ, false, not, ◌≡◌, refl, ap, ◌∙◌, inl, inr, List, [], ◌∷◌, ◌++◌, map, arith, any, All, ◌==◌,
  Bool-cases, is_nil,
}
use avash.Base.Text.{
  Text, codes, is_whitespace, trim, trim_end, trim_start_if, trim_matches, keep_if, join,
  strip_prefix, split_if,
}
use avash.Base.Trim.{trim_start_if-cons, trim_end_if-append, trim_end_if-word, trim-trim_end}
use avash.Base.Any.{AnyFree-map-trim}
use avash.Config.Host.{SshHost}
use avash.Config.Blocks.{step, tag_list, on_line, comment}
use avash.Config.Render.{clean_tags}
use avash.Config.Render.Fields.{IsTrimmed, trim-IsTrimmed, trim_start-indent, trim-line, reading}

pub split_if-append :
    (k : ℕ) (a s : Text)
    → any (λ c. c == k) a ≡ false
    → split_if (λ c. c == k) (a ++ k ∷ s) ≡ a ∷ split_if (λ c. c == k) s
unfolding split_if
split_if-append k [] s h = ground arith
split_if-append k (c ∷ a) s h = rw (split_if-append k a s (ground arith)) (ground arith)

pub split_if-free :
    (k : ℕ) (a : Text) → any (λ c. c == k) a ≡ false → split_if (λ c. c == k) a ≡ a ∷ []
unfolding split_if
split_if-free k [] h = refl
split_if-free k (c ∷ a) h = rw (split_if-free k a (ground arith)) (ground arith)

-- A tag as it is written: trimmed, not empty and without a comma.
pub record IsTag (t : Text) : Type 0 where
  pub trimmed : IsTrimmed t
  pub one : any (λ c. c == b',') t ≡ false

abbrev pub CommaFree : List Text → Type 0
CommaFree = All (λ t. any (λ c. c == b',') t ≡ false)

clean_from :
    (l : List Text)
    → CommaFree (map trim l)
    → All IsTag (keep_if (λ t. not (is_nil t)) (map trim l))
unfolding keep_if
clean_from [] h = tt
clean_from (t ∷ l) h = elim (Bool-cases (is_nil (trim t))) [
  | inl e ↦ rw e (clean_from l h.1)
  | inr e ↦ rw e (record { trimmed = trim-IsTrimmed t e; one = h.0 }, clean_from l h.1)
]

pub clean_tags-IsTag : (l : List Text) → CommaFree l → All IsTag (clean_tags l)
clean_tags-IsTag l h = clean_from l (AnyFree-map-trim (λ c. c == b',') l h)

trim-space : (s : Text) → trim (32 ∷ s) ≡ trim s
unfolding trim_start_if is_whitespace
trim-space s = refl

pub tag_list-join :
    (t : Text) (l : List Text)
    → All IsTag (t ∷ l)
    → tag_list (32 ∷ join (codes ", ") (t ∷ l)) ≡ t ∷ l
unfolding tag_list join keep_if
tag_list-join t [] h =
    rw (split_if-free b',' (32 ∷ t) h.0.one, trim-space t, h.0.trimmed.both, h.0.trimmed.given) refl
tag_list-join t (u ∷ l) h =
    rw
      (
        split_if-append b',' (32 ∷ t) (32 ∷ join (codes ", ") (u ∷ l)) h.0.one,
        trim-space t,
        h.0.trimmed.both,
        h.0.trimmed.given,
      )
      (ap (◌∷◌ t) (tag_list-join u l h.1))

join-full :
    (t : Text) (l : List Text) → All IsTag (t ∷ l) → is_nil (join (codes ", ") (t ∷ l)) ≡ false
unfolding join
join-full t [] h = h.0.trimmed.given
join-full [] (u ∷ l) h = refl
join-full (c ∷ t) (u ∷ l) h = refl

join-trim_end :
    (t : Text) (l : List Text)
    → All IsTag (t ∷ l)
    → trim_end (join (codes ", ") (t ∷ l)) ≡ join (codes ", ") (t ∷ l)
unfolding join
join-trim_end t [] h = h.0.trimmed.at_end
join-trim_end t (u ∷ l) h =
    let rest = join-trim_end u l h.1 in
    let sep =
      trim_end_if-append is_whitespace (codes ", ") (join (codes ", ") (u ∷ l))
        (rw rest (join-full u l h.1))
      ∙ ap (λ a. codes ", " ++ a) rest in
    trim_end_if-append is_whitespace t (codes ", " ++ join (codes ", ") (u ∷ l)) (rw sep refl)
    ∙ ap (λ a. t ++ a) sep

pub step-tags :
    (hosts : List SshHost) (h : SshHost) (t : Text) (l : List Text)
    → All IsTag (t ∷ l)
    → h.tags ≡ []
    → step (reading hosts h) (codes "    #Tags: " ++ join (codes ", ") (t ∷ l))
      ≡ reading hosts (record h { tags = t ∷ l })
unfolding on_line comment strip_prefix trim_start_if is_whitespace
step-tags hosts h t l ts none_yet =
    ap (on_line (reading hosts h)) (
      trim-line b'#' (codes "Tags: ") (join (codes ", ") (t ∷ l)) (unfold is_whitespace in refl)
        (join-full t l ts) (join-trim_end t l ts))
    ∙ rw none_yet (ap (λ x. reading hosts (record h { tags = x })) (tag_list-join t l ts))

trim-folder : (f : Text) → trim (codes "    #Folder: " ++ f) ≡ codes "#Folder:" ++ trim_end (32 ∷ f)
trim-folder f =
    ap trim_end (
      trim_start-indent (codes "#Folder: " ++ f)
      ∙ trim_start_if-cons is_whitespace b'#' (codes "Folder: " ++ f)
          (unfold is_whitespace in refl))
    ∙ trim_end_if-word is_whitespace (codes "#Folder:") (32 ∷ f) (unfold is_whitespace in refl)

pub step-folder :
    (hosts : List SshHost) (h : SshHost) (f : Text)
    → h.folder ≡ []
    → step (reading hosts h) (codes "    #Folder: " ++ f)
      ≡ reading hosts (record h { folder = trim_matches b'/' (trim f) })
unfolding on_line comment strip_prefix trim_start_if is_whitespace
step-folder hosts h f none_yet =
    ap (on_line (reading hosts h)) (trim-folder f)
    ∙ rw none_yet (
        ap (λ x. reading hosts (record h { folder = trim_matches b'/' x }))
          (trim-trim_end (32 ∷ f) ∙ trim-space f))
