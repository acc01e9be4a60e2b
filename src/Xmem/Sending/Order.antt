-- ===== src/Xmem/Sending/Order.antt =====
-- What writeToClient writes, whatever the throttler grants.
use goxdcr.Prelude.{
  ℕ, zero, suc, ◌≤◌, ◌≡◌, refl, sym, ap, ◌∙◌, inl, inr, true, ◌||◌, List, [], ◌∷◌, ◌++◌, arith, ltb,
  ◌==◌, Bool-cases, length, take, drop, take-append-drop,
}
use goxdcr.Xmem.Sending.{
  Item, fitting, push_rest, items_to_send, Round, not_running, granted, WriteEnd, wrote_all,
  stopped, goes_on, failed, write_loop, write_to_client,
}

-- The items on a stack, in the order in which they are to be written.
abbrev pub on_stack : List (List Item) → List Item
on_stack [] = []
on_stack (items ∷ stack) = items ++ on_stack stack

-- What an end leaves unwritten.
abbrev pub unwritten : WriteEnd → List Item
unwritten wrote_all = []
unwritten (stopped stack) = on_stack stack
unwritten (goes_on stack) = on_stack stack
unwritten (failed piece stack) = piece ++ on_stack stack

append_assoc : (xs ys zs : List Item) → (xs ++ ys) ++ zs ≡ xs ++ (ys ++ zs)
append_assoc [] ys zs = refl
append_assoc (x ∷ xs) ys zs = ap (λ l. x ∷ l) (append_assoc xs ys zs)

append_nil : (xs : List Item) → xs ++ [] ≡ xs
append_nil [] = refl
append_nil (x ∷ xs) = ap (λ l. x ∷ l) (append_nil xs)

nothing_left : (xs : List Item) → (length xs == 0) ≡ true → xs ≡ []
nothing_left [] h = refl
nothing_left (x ∷ xs) h = ground arith

split_at :
    (n : ℕ) (items : List Item) (rest : List Item)
    → take n items ++ (drop n items ++ rest) ≡ items ++ rest
split_at n items rest =
    sym (append_assoc (take n items) (drop n items) rest)
    ∙ ap (λ l. l ++ rest) (take-append-drop n items)

take_all : (n : ℕ) (items : List Item) → length items ≤ n → take n items ≡ items
take_all zero [] h = refl
take_all (suc n) [] h = refl
take_all zero (x ∷ xs) h = absurd (omega arith)
take_all (suc n) (x ∷ xs) h = ap (λ l. x ∷ l) (take_all n xs (omega arith))

push_rest_keeps :
    (allowed : ℕ) (items : List Item) (stack : List (List Item))
    → on_stack (push_rest allowed items stack) ≡ items ++ on_stack stack
unfolding push_rest
push_rest_keeps allowed items stack = elim (Bool-cases (length items == 0)) [
  | inl e ↦ rw (e, nothing_left items e) refl
  | inr e ↦ elim (Bool-cases (allowed == 0 || fitting allowed items == 0)) [
    | inl f ↦ rw (e, f) refl
    | inr f ↦ elim (Bool-cases (ltb (fitting allowed items) (length items))) [
      | inl l ↦ rw (e, f, l) (split_at (fitting allowed items) items (on_stack stack))
      | inr l ↦
          rw (e, f, l)
            (ap (λ x. x ++ on_stack stack) (take_all (fitting allowed items) items (ground arith)))
    ]
  ]
]

loop_keeps :
    (percentage : ℕ) (rounds : List Round) (stack : List (List Item))
    → let result = write_loop percentage rounds stack in
      result.0 ++ unwritten result.1 ≡ on_stack stack
unfolding write_loop
loop_keeps percentage rounds [] = refl
loop_keeps percentage [] (items ∷ stack) = refl
loop_keeps percentage (not_running ∷ rounds) (items ∷ stack) = refl
loop_keeps percentage (granted can_send allowed succeeds ∷ rounds) (items ∷ stack) =
    let k = items_to_send percentage can_send items in
    let later = write_loop percentage rounds (push_rest allowed (drop k items) stack) in
    let ih =
      loop_keeps percentage rounds (push_rest allowed (drop k items) stack)
      ∙ push_rest_keeps allowed (drop k items) stack in
    elim (Bool-cases (k == 0)) [
      | inl e ↦
          let z : k ≡ 0 = ground arith in rw e (ih ∙ ap (λ n. drop n items ++ on_stack stack) z)
      | inr e ↦ elim (Bool-cases succeeds) [
        | inl s ↦
            rw (e, s)
              (append_assoc (take k items) later.0 (unwritten later.1)
                ∙ ap (λ l. take k items ++ l) ih
                ∙ split_at k items (on_stack stack))
        | inr s ↦ rw (e, s) (split_at k items (on_stack stack))
      ]
    ]

-- Whatever the throttler grants and however long it takes, writeToClient writes the items of a batch
-- whole, in their order, each once: what is written, then what the end leaves unwritten, is the batch.
-- So when it ends with all written it has written the batch.
pub write_to_client_keeps :
    (percentage : ℕ) (rounds : List Round) (items : List Item)
    → let result = write_to_client percentage rounds items in result.0 ++ unwritten result.1 ≡ items
unfolding write_to_client
write_to_client_keeps percentage rounds [] = refl
write_to_client_keeps percentage rounds (x ∷ xs) =
    loop_keeps percentage rounds ((x ∷ xs) ∷ []) ∙ append_nil (x ∷ xs)
