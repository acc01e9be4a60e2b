-- ===== src/Xmem/Client/Repairs.antt =====
-- A connection is repaired once for each failure that several routines see.
use goxdcr.Prelude.{
  ℕ, suc, ◌+◌, ◌≡◌, refl, sym, ap, ◌∙◌, true, false, List, [], ◌∷◌, ◌++◌, arith, ◌==◌, ==_iff,
  Bool-cases, length, inl, inr,
}
use goxdcr.Xmem.Client.{
  XmemClient, report_op_failure, report_op_success, repair_conn, mark_conn_unhealthy,
  increment_back_off_factor, ClientCall, fails, succeeds, marks_unhealthy, increments_back_off,
  repairs, client_run,
}
use goxdcr.Xmem.Buffer.{count_from}

abbrev pub connections : List (ℕ × ℕ) → List ℕ
connections [] = []
connections ((mem, rev) ∷ rest) = mem ∷ connections rest

abbrev pub counts_named : List (ℕ × ℕ) → List ℕ
counts_named [] = []
counts_named ((mem, rev) ∷ rest) = rev ∷ counts_named rest

-- What a run of calls with these granted requests makes of a client.
pub record IsRepaired (before after : XmemClient) (granted : List (ℕ × ℕ)) : Type 0 where
  pub revs : counts_named granted ≡ count_from before.num_of_repairs (length granted)
  pub total : after.num_of_repairs ≡ before.num_of_repairs + length granted
  pub all_closed :
      after.closed ++ after.mem_client ∷ []
      ≡ (before.closed ++ before.mem_client ∷ []) ++ connections granted

append_nil : (xs : List ℕ) → xs ++ [] ≡ xs
append_nil [] = refl
append_nil (x ∷ xs) = ap (λ l. x ∷ l) (append_nil xs)

append_assoc : (xs ys zs : List ℕ) → (xs ++ ys) ++ zs ≡ xs ++ (ys ++ zs)
append_assoc [] ys zs = refl
append_assoc (x ∷ xs) ys zs = ap (λ l. x ∷ l) (append_assoc xs ys zs)

keeps-IsRepaired :
    (client next after : XmemClient) (granted : List (ℕ × ℕ))
    → next.num_of_repairs ≡ client.num_of_repairs
    → next.closed ≡ client.closed
    → next.mem_client ≡ client.mem_client
    → IsRepaired next after granted
    → IsRepaired client after granted
keeps-IsRepaired client next after granted n c m r = record {
  revs = r.revs ∙ ap (λ k. count_from k (length granted)) n;
  total = omega (arith, r.total);
  all_closed =
      r.all_closed
      ∙ ap (λ l. (l ++ next.mem_client ∷ []) ++ connections granted) c
      ∙ ap (λ k. (client.closed ++ k ∷ []) ++ connections granted) m;
}

repair_granted :
    (mem rev now : ℕ) (client : XmemClient)
    → (client.num_of_repairs == rev) ≡ true
    → let r = repair_conn mem rev now client in
      (r.1 ≡ true)
      × (r.0.num_of_repairs ≡ suc client.num_of_repairs)
      × (r.0.closed ≡ client.closed ++ client.mem_client ∷ [])
      × (r.0.mem_client ≡ mem)
unfolding repair_conn
repair_granted mem rev now client e = rw e (refl, refl, refl, refl)

repair_ignored :
    (mem rev now : ℕ) (client : XmemClient)
    → (client.num_of_repairs == rev) ≡ false
    → repair_conn mem rev now client ≡ (client, false)
unfolding repair_conn
repair_ignored mem rev now client e = rw e refl

granted-IsRepaired :
    (mem rev : ℕ) (client next after : XmemClient) (granted : List (ℕ × ℕ))
    → client.num_of_repairs ≡ rev
    → next.num_of_repairs ≡ suc client.num_of_repairs
    → next.closed ≡ client.closed ++ client.mem_client ∷ []
    → next.mem_client ≡ mem
    → IsRepaired next after granted
    → IsRepaired client after ((mem, rev) ∷ granted)
granted-IsRepaired mem rev client next after granted e n c m r =
    let used = client.closed ++ client.mem_client ∷ [] in
    record {
      revs =
          ap (λ l. rev ∷ l) (r.revs ∙ ap (λ k. count_from k (length granted)) n)
          ∙ ap (λ k. k ∷ count_from (suc client.num_of_repairs) (length granted)) (sym e);
      total = omega (arith, r.total);
      all_closed =
          r.all_closed
          ∙ ap (λ l. (l ++ next.mem_client ∷ []) ++ connections granted) c
          ∙ ap (λ k. (used ++ k ∷ []) ++ connections granted) m
          ∙ append_assoc used (mem ∷ []) (connections granted);
    }

-- Whatever the routines do with a client, the requests for a repair that are granted name the repair
-- counts from its own on, each once: of the requests that name the same count at most one is granted.
-- The connections that it had, in their order, are all closed but the last, which is in use.
pub client_run-IsRepaired :
    (calls : List ClientCall) (client : XmemClient)
    → IsRepaired client (client_run calls client).0 (client_run calls client).1
unfolding client_run report_op_failure report_op_success mark_conn_unhealthy
    increment_back_off_factor
client_run-IsRepaired [] client = record {
  revs = refl;
  total = omega arith;
  all_closed = sym (append_nil (client.closed ++ client.mem_client ∷ []));
}
client_run-IsRepaired (fails read_op now ∷ rest) client =
    keeps-IsRepaired client (report_op_failure read_op now client) _ _ refl refl refl
      (client_run-IsRepaired rest (report_op_failure read_op now client))
client_run-IsRepaired (succeeds ∷ rest) client =
    keeps-IsRepaired client (report_op_success client) _ _ refl refl refl
      (client_run-IsRepaired rest (report_op_success client))
client_run-IsRepaired (marks_unhealthy ∷ rest) client =
    keeps-IsRepaired client (mark_conn_unhealthy client) _ _ refl refl refl
      (client_run-IsRepaired rest (mark_conn_unhealthy client))
client_run-IsRepaired (increments_back_off ∷ rest) client =
    keeps-IsRepaired client (increment_back_off_factor client) _ _ refl refl refl
      (client_run-IsRepaired rest (increment_back_off_factor client))
client_run-IsRepaired (repairs mem rev now ∷ rest) client =
    elim (Bool-cases (client.num_of_repairs == rev)) [
      | inl e ↦
          let (granted, n, c, m) = repair_granted mem rev now client e in
          let next = (repair_conn mem rev now client).0 in
          let q : client.num_of_repairs ≡ rev = (==_iff client.num_of_repairs rev).0 e in
          rw granted (
            granted-IsRepaired mem rev client next (client_run rest next).0 (client_run rest next).1
              q n c m (client_run-IsRepaired rest next))
      | inr e ↦ rw (repair_ignored mem rev now client e) (client_run-IsRepaired rest client)
    ]
