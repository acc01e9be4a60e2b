-- ===== src/ThroughSeqno/Dispatch/Workers.antt =====
-- Each vbucket goes to one executor, and an event to its own vbucket.
use goxdcr.Prelude.{
  ℕ, zero, suc, ◌+◌, ◌-◌, ◌≤◌, ◌<◌, ◌≡◌, refl, sym, ap, ◌∙◌, inl, inr, true, List, [], ◌∷◌, ◌++◌,
  Outcome, done, arith, ltb, leb, tests, length, take, drop, All, Bool-cases, length-take,
  length-drop, take-append-drop,
}
use mathlib.Core.List.{append-nil}
use goxdcr.ThroughSeqno.Dispatch.{hand_out, executors, vb_per_worker}

abbrev pub flatten : List (List ℕ) → List ℕ
flatten [] = []
flatten (xs ∷ xss) = xs ++ flatten xss

drop_nil : (n : ℕ) → drop {A = ℕ} n [] ≡ []
drop_nil zero = refl
drop_nil (suc n) = refl

drop-drop : (a b : ℕ) (xs : List ℕ) → drop a (drop b xs) ≡ drop (b + a) xs
drop-drop a zero xs = let e : 0 + a ≡ a = omega arith in rw e refl
drop-drop a (suc b) [] = rw (drop_nil a) (sym (drop_nil (suc b + a)))
drop-drop a (suc b) (x ∷ xs) =
    let e : suc b + a ≡ suc (b + a) = omega arith in rw e (drop-drop a b xs)

take_whole : (n : ℕ) (xs : List ℕ) → length xs ≤ n → take n xs ≡ xs
take_whole zero [] h = refl
take_whole zero (x ∷ xs) h = absurd (omega arith)
take_whole (suc n) [] h = refl
take_whole (suc n) (x ∷ xs) h = ap (◌∷◌ x) (take_whole n xs (omega arith))

-- What the rounds from `i` on hand out.
record Handed (w i : ℕ) (vbs : List ℕ) (result : Outcome (List (List ℕ))) : Type 0 where
  parts : List (List ℕ)
  ends : result ≡ done parts
  all : flatten parts ≡ drop i vbs
  sizes : All (λ part. length part ≤ w) parts

own_part : (w i : ℕ) (vbs : List ℕ) → take (i + w - i) (drop i vbs) ++ drop (i + w) vbs ≡ drop i vbs
own_part w i vbs =
    let e : i + w - i ≡ w = omega arith in
    rw e (rw (sym (drop-drop w i vbs)) (take-append-drop w (drop i vbs)))

last_part : (i e : ℕ) (vbs : List ℕ) → length vbs ≤ e → take (e - i) (drop i vbs) ++ [] ≡ drop i vbs
last_part i e vbs h =
    append-nil (take (e - i) (drop i vbs))
    ∙ take_whole (e - i) (drop i vbs) (omega (arith, length-drop i vbs))

hand_out-Handed :
    (fuel w i : ℕ) (vbs : List ℕ)
    → 0 < w
    → length vbs < i + fuel
    → i ≤ length vbs
    → Handed w i vbs (hand_out fuel w i vbs)
unfolding hand_out
hand_out-Handed zero w i vbs pos h l = absurd (omega arith)
hand_out-Handed (suc fuel) w i vbs pos h l = elim (Bool-cases (ltb (length vbs) (i + w))) [
  | inl short ↦
      let all : leb (length vbs) (length vbs) ≡ true = ground arith in
      rw (short, all, hand_out)
        (record {
          parts = take (length vbs - i) (drop i vbs) ∷ [];
          ends = refl;
          all = last_part i (length vbs) vbs (omega arith);
          sizes = (omega (tests, short, length-take (length vbs - i) (drop i vbs)), tt);
        })
  | inr long ↦ elim (Bool-cases (leb (length vbs) (i + w))) [
    | inl last ↦
        rw (long, last, hand_out)
          (record {
            parts = take (i + w - i) (drop i vbs) ∷ [];
            ends = refl;
            all = last_part i (i + w) vbs (ground arith);
            sizes = (omega (arith, length-take (i + w - i) (drop i vbs)), tt);
          })
    | inr more ↦
        let rest = hand_out-Handed fuel w (i + w) vbs pos (omega arith) (ground arith) in
        rw (long, more, hand_out)
          (record {
            parts = take (i + w - i) (drop i vbs) ∷ rest.parts;
            ends = rw rest.ends refl;
            all = ap (λ vs. take (i + w - i) (drop i vbs) ++ vs) rest.all ∙ own_part w i vbs;
            sizes = (omega (arith, length-take (i + w - i) (drop i vbs)), rest.sizes);
          })
  ]
]

-- The vbuckets are handed out in the order of the list, each to one executor, at most 20 to each, and
-- the loop ends.
executors-flatten :
    (list_of_vbs : List ℕ)
    → (parts : List (List ℕ)) × (executors list_of_vbs ≡ done parts)
      × (flatten parts ≡ list_of_vbs)
      × All (λ part. length part ≤ vb_per_worker) parts
unfolding executors
executors-flatten vbs =
    let h =
      hand_out-Handed (suc (length vbs)) vb_per_worker 0 vbs (omega arith) (omega arith)
        (omega arith) in
    (h.parts, h.ends, h.all, h.sizes)
