-- ===== src/Mailbox/Joins.antt =====
-- A thread that waits at a mailbox leaves its run queue and joins the list of the mailbox; with
-- that the scheduler's variables stay in order.
use sancus_riot.Common.{
  ℕ, ◌<◌, ◌≡◌, refl, ap, ◌≢◌, ◌∙◌, true, false, List, arith, ◌==◌, has, length, Distinct,
  Bool-cases, inl, inr,
}
use sancus_riot.Clist.Erase.{has-ne}
use sancus_riot.Kernel.{Kernel, mbox_blocked, on_runqueue}
use sancus_riot.Runqueue.{set_status}
use sancus_riot.Runqueue.Invariant.{Queues}
use sancus_riot.Runqueue.Scheduled.{requeue, threads-set_status}
use sancus_riot.Runqueue.SetStatus.{not_queued}
use sancus_riot.Mutex.{wait_fuel}
use sancus_riot.Mutex.Unlock.{Waits, Waits-frame, ne-null_of_Waits}
use sancus_riot.Mutex.Insert.{Inserted, thread_add_to_list-insert}
use sancus_riot.Mutex.Lock.{IsScheduled-links, links-off}
use sancus_riot.Mutex.Enqueue.{Begins}
use sancus_riot.System.Sound.{Sound, IsSound, Sound-Keeps, Keeps-Same, set_status-Sound}

-- The threads `ws`, fewer than 64, follow the pointer `list`, and none of them is able to run.
pub record IsWaiting (k : Kernel) (list : ℕ) (ws : List ℕ) : Type 0 where
  pub linked : Waits k.links list ws
  pub distinct : Distinct ws
  pub idle : (n : ℕ) → has n ws ≡ true → on_runqueue (k.threads n).status ≡ false
  pub few : length ws < wait_fuel

-- The variables after the change of the status.
abbrev pub left : Kernel → Kernel
left k = set_status k k.active_thread mbox_blocked

module _ (k : Kernel) (qs : Queues) (list : ℕ) (ws : List ℕ) (b : Begins k qs)
    (w : IsWaiting k list ws) where
  self_blocked : ((left k).threads k.active_thread).status ≡ mbox_blocked
  self_blocked = rw (threads-set_status k k.active_thread mbox_blocked, self) refl
    where
      self : k.active_thread == k.active_thread ≡ true
      self = ground arith

  not_waiting : has k.active_thread ws ≡ false
  not_waiting = elim (Bool-cases (has k.active_thread ws)) [
    | inl i ↦ absurd (ground (arith, w.idle k.active_thread i, b.runs))
    | inr o ↦ o
  ]

  still_idle : (n : ℕ) → has n ws ≡ true → on_runqueue ((left k).threads n).status ≡ false
  still_idle n i = rw (threads-set_status k k.active_thread mbox_blocked, other) (w.idle n i)
    where
      ne : n ≢ k.active_thread
      ne = has-ne n k.active_thread ws i not_waiting

      other : n == k.active_thread ≡ false
      other = ground (arith, ne)

  still_linked : Waits (left k).links list ws
  still_linked =
      Waits-frame k.links (left k).links list ws
        (λ n i.
          links-off k qs mbox_blocked k.active_thread n refl b.scheduled b.runs
            (ne-null_of_Waits k.links list ws n w.linked i) (w.idle n i))
        w.linked

  pub inserted : Inserted (left k) list k.active_thread ws
  inserted =
      thread_add_to_list-insert (left k) list k.active_thread ws b.active
        (ap on_runqueue self_blocked) w.distinct not_waiting still_linked w.few

  pub joined-Sound : Sound k qs → IsSound (record (left k) { links = inserted.links_after })
  joined-Sound s = (
    requeue k k.active_thread mbox_blocked qs,
    Sound-Keeps (left k) (record (left k) { links = inserted.links_after }) qs' qs'
        (IsScheduled-links (left k) qs' inserted.links_after sound.scheduled spared)
        (Keeps-Same (left k) (record (left k) { links = inserted.links_after }) refl) sound,
  )
    where
      qs' : Queues
      qs' = requeue k k.active_thread mbox_blocked qs

      sound : Sound (left k) qs'
      sound = set_status-Sound k qs k.active_thread mbox_blocked b.active (λ on off. b.head) s

      idle_out :
          (n p : ℕ) → has n (qs' p) ≡ true → on_runqueue ((left k).threads n).status ≡ false → ⊥
      idle_out n p i off = ground (arith, i, not_queued (left k) qs' sound.scheduled n off p)

      spared : (p n : ℕ) → has n (qs' p) ≡ true → inserted.links_after n ≡ (left k).links n
      spared p n i =
          inserted.others n
            (λ e.
              idle_out n p i
                (ap (λ m. on_runqueue ((left k).threads m).status) e ∙ ap on_runqueue self_blocked))
            (elim (Bool-cases (has n ws)) [
              | inl j ↦ absurd (idle_out n p i (still_idle n j))
              | inr o ↦ o
            ])
