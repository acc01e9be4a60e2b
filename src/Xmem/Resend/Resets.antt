-- ===== src/Xmem/Resend/Resets.antt =====
-- A resend on a new connection of a slot that holds an unanswered request.
use goxdcr.Prelude.{
  ℕ, ◌≡◌, refl, sym, ap, ◌∙◌, subst, Bool, true, false, not, ◌||◌, some, none, ◌==◌, ==_iff,
  if◌then◌else◌, set_at_same, arith,
}
use goxdcr.Xmem.Buffer.{BufferedMcRequest, RequestBuffer}
use goxdcr.Xmem.Resend.{
  Tick, no_request, reset_failed, reset_sent, fresh_again, note_reset, set_slot, resend_with_reset,
}
use goxdcr.Xmem.Resend.Bounds.{IsWaiting, LeavesAlone}

-- The slot waits again for its request, with no retry yet.
pub record IsRenewed (max_retry : ℕ) (before after : BufferedMcRequest) : Type 0 where
  pub waiting : IsWaiting max_retry after
  pub same_request : after.req ≡ before.req
  pub no_retry : after.num_of_retry ≡ 0
  pub in_time : after.timedout ≡ false

module _ (m pos : ℕ) (tick : Tick) (buf : RequestBuffer) where
  abbrev slot : BufferedMcRequest
  slot = buf.slots pos

  -- The buffer when the send has ended.
  abbrev after : RequestBuffer
  after = tick.during (set_slot pos (fresh_again slot) buf)

  abbrev changed : Bool
  changed = not (slot.num_of_retry == 0) || slot.timedout

  abbrev noted : BufferedMcRequest
  noted = record (after.slots pos) { sent_time = some tick.now_after }

  renewed :
      (time : ℕ) (new : BufferedMcRequest)
      → IsWaiting m slot
      → new.req ≡ slot.req
      → new.sent_time ≡ some time
      → new.num_of_retry ≡ 0
      → new.timedout ≡ false
      → IsRenewed m slot new
  renewed time new w r s n t = record {
    waiting = record {
      request = w.request;
      has_request = r ∙ w.has_request;
      time = time;
      was_sent = s;
      in_bounds = omega (arith, n);
      at_end = λ e. ground arith;
    };
    same_request = r;
    no_retry = n;
    in_time = t;
  }

  module _ (w : IsWaiting m slot) (k : LeavesAlone pos tick) where
    left : after.slots pos ≡ fresh_again slot
    left = (k _).0 ∙ set_at_same pos (fresh_again slot) buf.slots

    agrees : (after.sequences pos == buf.sequences pos) ≡ true
    agrees = (==_iff (after.sequences pos) (buf.sequences pos)).1 (k _).1

    noted_eq :
        note_reset pos (buf.sequences pos) tick.now_after changed after
        ≡ (set_slot pos noted after, reset_sent true)
    noted_eq =
        ap
          (λ o. elim o [
            | none ↦ (after, reset_sent changed)
            | some r ↦
                if after.sequences pos == buf.sequences pos
                then (set_slot pos noted after, reset_sent true)
                else (after, reset_sent changed)
          ])
          (ap (λ x. x.req) left ∙ w.has_request)
        ∙ ap
            (λ b.
              if b
              then (set_slot pos noted after, reset_sent true)
              else (after, reset_sent changed))
            agrees

    has_request : resend_with_reset tick pos buf ≡ (
        if tick.sends
        then note_reset pos (buf.sequences pos) tick.now_after changed after
        else (after, reset_failed changed))
    unfolding resend_with_reset
    has_request =
        ap
          (λ o. elim o [
            | none ↦ (buf, no_request)
            | some r ↦
                if tick.sends
                then note_reset pos (buf.sequences pos) tick.now_after changed after
                else (after, reset_failed changed)
          ])
          w.has_request

    pub resend_with_reset-IsRenewed :
        IsRenewed m slot ((resend_with_reset tick pos buf).0.slots pos)
    resend_with_reset-IsRenewed =
        subst (λ r. IsRenewed m slot (r.0.slots pos)) (sym has_request) (sent tick.sends)
      where
        sent :
            (b : Bool)
            → IsRenewed m slot (
                (if b
                    then note_reset pos (buf.sequences pos) tick.now_after changed after
                    else (after, reset_failed changed)).0.slots
                  pos)
        sent false =
            renewed w.time (after.slots pos) w (ap (λ x. x.req) left)
              (ap (λ x. x.sent_time) left ∙ w.was_sent) (ap (λ x. x.num_of_retry) left)
              (ap (λ x. x.timedout) left)
        sent true =
            subst (λ r. IsRenewed m slot (r.0.slots pos)) (sym noted_eq)
              (subst (λ x. IsRenewed m slot x) (sym (set_at_same pos noted after.slots))
                (renewed tick.now_after noted w (ap (λ x. x.req) left) refl
                  (ap (λ x. x.num_of_retry) left) (ap (λ x. x.timedout) left)))
