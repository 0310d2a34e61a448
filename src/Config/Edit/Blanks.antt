-- ===== src/Config/Edit/Blanks.antt =====
-- The blank lines of what `remove_host` and `update_host` (crates/avash/src/lib.rs) write.
use avash.Base.{
  ℕ, zero, suc, ◌≤◌, false, ◌≡◌, refl, inl, inr, [], ◌∷◌, arith, length, ◌==◌, Bool-cases,
}
use avash.Base.Text.{Text, codes, trim_start_if, starts_with, strip_prefix}
use avash.Base.Replace.{contains, length-replace, contains-trim_start_if}
use avash.Config.Edit.{three_feeds, is_crlf, compact, written}

compact-done : (f : ℕ) (out : Text) → length out ≤ f → contains three_feeds (compact f out) ≡ false
unfolding compact
compact-done zero [] h = refl
compact-done zero (c ∷ s) h = elim h [ ]
compact-done (suc f) out h = elim (Bool-cases (contains three_feeds out)) [
  | inl more ↦
      rw (more, compact)
        (compact-done f _
          (omega (arith, length-replace three_feeds (codes "\n\n") (omega arith) out more)))
  | inr done ↦ rw (done, compact) done
]

starts_with-trim_start_if :
    (c : ℕ) (s : Text) → starts_with (c ∷ []) (trim_start_if (λ d. d == c) s) ≡ false
unfolding trim_start_if strip_prefix
starts_with-trim_start_if c [] = refl
starts_with-trim_start_if c (d ∷ s) = ground (arith, starts_with-trim_start_if c s)

-- The loop of replacements ends, and in a file with plain line feeds what is written has no two
-- blank lines in a row and none at its front.
pub written-blank_lines :
    (original out : Text)
    → is_crlf original ≡ false
    → (contains three_feeds (written original out) ≡ false)
      × (starts_with (codes "\n") (written original out) ≡ false)
unfolding written
written-blank_lines original out lf = rw lf (
  contains-trim_start_if three_feeds (λ c. c == b'\n') (compact (length out) out)
      (compact-done (length out) out (omega arith)),
  starts_with-trim_start_if b'\n' (compact (length out) out),
)
