-- ===== src/Files/Served.antt =====
-- What `servir` of rdp-sidecar/src/fichiers.rs gives of a file.
use avash.Base.{
  ℕ, zero, suc, ◌+◌, ◌-◌, ◌≤◌, ◌<◌, min, true, false, ◌≡◌, refl, sym, ap, subst, ◌∙◌, inl, inr,
  Option, some, List, [], ◌∷◌, ◌++◌, arith, ltb, length, take, drop, is_nil, Bool-cases, ltb→lt,
  ltb-false→le,
}
use avash.Base.Text.{Text, Bytes}
use avash.Files.Names.{Descriptor}
use avash.Files.Offer.{
  Offered, Wanted, data_response, file_at, push_bytes, read_all, served_max, serve,
}

-- `read`, as it is documented, of a file whose bytes from a position on are `content`: some of the next bytes, no more
-- than there is room for, and none only at the end.
pub record IsRead (content : Bytes) (read : ℕ → ℕ → Option Bytes) (total room : ℕ) : Type 0 where
  pub octets : Bytes
  pub reads : read total room ≡ some octets
  pub fits : length octets ≤ room
  pub next : octets ≡ take (length octets) (drop total content)
  pub some_octets : total < length content → 0 < length octets

abbrev no_octets : Bytes
no_octets = []

take_nil : (n c : ℕ) → take n (drop c no_octets) ≡ no_octets
take_nil zero c = refl
take_nil (suc n) zero = refl
take_nil (suc n) (suc c) = refl

take-drop-from :
    (a b c t : ℕ) (l : Bytes)
    → a ≤ b
    → c ≡ t + a
    → take a (drop t l) ++ take (b - a) (drop c l) ≡ take b (drop t l)
take-drop-from a b zero (suc t) l h e = absurd (omega (arith, e))
take-drop-from a b c (suc t) [] h e =
    ap (λ n. take a [] ++ n) (take_nil (b - a) c)
    ∙ ap (λ n. n ++ []) (take_nil a 0)
    ∙ sym (take_nil b 0)
take-drop-from a b (suc c) (suc t) (x ∷ l) h e = take-drop-from a b c t l h (omega (arith, e))
take-drop-from zero b zero zero l h e =
    let same : b - 0 ≡ b = omega arith in ap (λ n. take n l) same
take-drop-from (suc a) b zero zero l h e = absurd (omega (arith, e))
take-drop-from zero b (suc c) zero l h e = absurd (omega (arith, e))
take-drop-from (suc a) zero (suc c) zero l h e = absurd (omega (arith, h))
take-drop-from (suc a) (suc b) (suc c) zero [] h e = take_nil (suc b - suc a) 0
take-drop-from (suc a) (suc b) (suc c) zero (x ∷ l) h e =
    let same : suc b - suc a ≡ b - a = omega arith in
    ap (λ n. x ∷ (take a l ++ take n (drop c l))) same
    ∙ ap (◌∷◌ x) (take-drop-from a b c zero l (omega (arith, h)) (omega (arith, e)))

drop-end : (t n : ℕ) (l : Bytes) → length l ≤ t → take n (drop t l) ≡ []
drop-end t zero l h = refl
drop-end zero (suc n) [] h = refl
drop-end zero (suc n) (x ∷ l) h = absurd (omega (arith, h))
drop-end (suc t) (suc n) [] h = refl
drop-end (suc t) (suc n) (x ∷ l) h = drop-end t (suc n) l (omega (arith, h))

nil-length : (l : Bytes) → is_nil l ≡ true → length l ≡ 0
nil-length [] h = refl
nil-length (x ∷ l) h = cc

full-length : (l : Bytes) → is_nil l ≡ false → 0 < length l
full-length [] h = absurd (cc h)
full-length (x ∷ l) h = omega arith

module _ (content : Bytes) (read : ℕ → ℕ → Option Bytes)
    (reads : (total room : ℕ) → 0 < room → IsRead content read total room) where
  read_all-window :
      (f total room : ℕ)
      → room ≤ f
      → read_all f read total room ≡ some (take room (drop total content))
  unfolding read_all
  read_all-window zero total zero h = refl
  read_all-window zero total (suc room) h = elim h [ ]
  read_all-window (suc f) total room h = elim (Bool-cases (ltb 0 room)) [
    | inr n ↦
        let none_left : room ≡ 0 = omega (arith, ltb-false→le 0 room n) in
        subst (λ room. read_all (suc f) read total room ≡ some (take room (drop total content)))
          (sym none_left) refl
    | inl y ↦
        let k = reads total room (ltb→lt 0 room y) in
        elim (Bool-cases (is_nil k.octets)) [
          | inl z ↦
              rw (read_all, y, k.reads, z)
                (ap some (
                  sym (drop-end total room content (at_end k.some_octets (nil-length k.octets z)))))
          | inr z ↦
              let len = length k.octets in
              rw (read_all, y, k.reads, z)
                (ap (push_bytes k.octets) (
                    read_all-window f (total + len) (room - len)
                      (omega (arith, h, full-length k.octets z)))
                  ∙ ap (λ (o : Bytes). some (o ++ take (room - len) (drop (total + len) content)))
                      k.next
                  ∙ ap some (take-drop-from len room (total + len) total content k.fits refl))
        ]
  ]
    where
      at_end : {n total : ℕ} → (total < length content → 0 < n) → n ≡ 0 → length content ≤ total
      at_end {n = n} {total = total} h e = elim (Bool-cases (ltb total (length content))) [
        | inl y ↦ absurd (omega (arith, h (ltb→lt total (length content) y), e))
        | inr y ↦ ltb-false→le total (length content) y
      ]

-- A range of an offered file: at most 16 MiB of the bytes from the position on, and all of those that were asked for
-- up to there, when the reads behave as documented.
pub serve-window :
    (disk : Offered) (files : List (Text × Descriptor)) (q : Wanted) (path : Text) (d : Descriptor)
    (read : ℕ → ℕ → Option Bytes) (content : Bytes)
    → file_at files q.index ≡ some (path, d)
    → d.directory ≡ false
    → q.wants_size ≡ false
    → disk.open_at path q.position ≡ some read
    → ((total room : ℕ) → 0 < room → IsRead content read total room)
    → serve disk files q
      ≡ data_response q.stream_id (take (min q.requested_size served_max) content)
unfolding serve
serve-window disk files q path d read content found file range opened reads =
    rw
      (
        serve,
        found,
        file,
        range,
        opened,
        read_all-window content read reads (min q.requested_size served_max) 0
            (min q.requested_size served_max) (omega arith),
      )
      refl
