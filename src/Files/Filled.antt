-- ===== src/Files/Filled.antt =====
-- The requests that `remplir` of rdp-sidecar/src/fichiers.rs issues: what they hold of a file.
use avash.Base.{
  ℕ, zero, suc, ◌+◌, ◌-◌, ◌^◌, ◌≤◌, ◌<◌, min, true, false, ◌≡◌, refl, sym, subst, inl, inr, Option,
  List, [], ◌∷◌, arith, length, ltb, Bool-cases, ltb-false→le, ltb→lt,
}
use avash.Base.Table.{Table, put, put-length}
use avash.Files.Requests.{chunk, in_flight_max, next_stream_id, plan, asked_after, issue}
use avash.Files.Window.{IsFlowing, IsFlowing-put, numbered-fresh}

-- What `remplir` leaves, with `n` places left in flight.
pub record IsFilled (size asked received next n : ℕ) (flying : Table (ℕ × ℕ)) (id' asked' : ℕ)
    (flying' : Table (ℕ × ℕ)) : Type 0 where
  pub flowing : IsFlowing size asked' received id' flying'
  pub numbers : id' ≤ next + n
  pub kept : length flying ≤ length flying'
  pub asks : 0 < n → asked < size → 0 < length flying'
  pub less : (size - asked') + length flying' ≤ (size - asked) + length flying

-- What the ranges leave, once they are issued.
abbrev pub Filled : Option ℕ → ℕ → ℕ → ℕ → ℕ → ℕ → ℕ → Table (ℕ × ℕ) → List (ℕ × ℕ) → Type 0
unfolding issue
Filled data_id index size asked received next n flying ranges =
    IsFilled size asked received next n flying (issue data_id index ranges next flying).0
      (asked_after asked ranges) (issue data_id index ranges next flying).1

plan-none : (n size asked : ℕ) → ltb asked size ≡ false → plan (suc n) size asked ≡ []
unfolding plan
plan-none n size asked e = rw (plan, e) refl

plan-some :
    (n size asked : ℕ)
    → ltb asked size ≡ true
    → plan (suc n) size asked
      ≡ (asked, min (size - asked) chunk) ∷ plan n size (asked + min (size - asked) chunk)
unfolding plan
plan-some n size asked e = rw (plan, e) refl

pub issue-IsFilled :
    (data_id : Option ℕ) (index size asked received next n : ℕ) (flying : Table (ℕ × ℕ))
    → IsFlowing size asked received next flying
    → length flying + n ≤ in_flight_max
    → next + n < 2 ^ 32
    → Filled data_id index size asked received next n flying (plan n size asked)
unfolding issue plan
issue-IsFilled data_id index size asked received next zero flying h room few = record {
  flowing = h;
  numbers = omega arith;
  kept = omega arith;
  asks = λ a b. omega (arith, a);
  less = omega arith;
}
issue-IsFilled data_id index size asked received next (suc n) flying h room few =
    elim (Bool-cases (ltb asked size)) [
      | inr e ↦ rw (plan-none n size asked e) (record {
        flowing = h;
        numbers = omega arith;
        kept = omega arith;
        asks = λ a b. omega (arith, b, ltb-false→le asked size e);
        less = omega arith;
      })
      | inl e ↦
          let less : asked < size = ltb→lt asked size e in
          let len = min (size - asked) chunk in
          let some_len : 0 < len = omega (arith, less) in
          let one : next_stream_id next ≡ next + 1 = omega (arith, few) in
          let h' =
            IsFlowing-put size asked received next len flying h (omega (arith, less)) some_len
              (omega (arith, room)) in
          let added : length (put flying next (asked, len)) ≡ length flying + 1 =
            rw
              (
                put-length flying next (asked, len),
                numbered-fresh flying next next h.numbered (omega arith),
              )
              refl in
          let k =
            issue-IsFilled data_id index size (asked + len) received (next + 1) n
              (put flying next (asked, len)) h' (omega (arith, added, room)) (omega (arith, few)) in
          subst (λ ranges. Filled data_id index size asked received next (suc n) flying ranges)
            (sym (plan-some n size asked e))
            (subst
              (λ m.
                IsFilled size asked received next (suc n) flying
                  (issue data_id index (plan n size (asked + len)) m
                    (put flying next (asked, len))).0
                  (asked_after (asked + len) (plan n size (asked + len)))
                  (issue data_id index (plan n size (asked + len)) m
                    (put flying next (asked, len))).1)
              (sym one)
              (record {
                flowing = k.flowing;
                numbers = omega (arith, k.numbers);
                kept = omega (arith, k.kept, added);
                asks = λ a b. omega (arith, k.kept, added);
                less = omega (arith, k.less, added, some_len, less);
              }))
    ]
