-- ===== src/Saving/Whole.antt =====
-- The input that `save_if_interesting` keeps: its file, and its entry before the calibration.
use aflgo.Common.{
  ℕ, ◌+◌, ◌%◌, ◌^◌, ◌≡◌, refl, arith, ◌==◌, if◌then◌else◌, Bool-cases, inl, inr, some, Option-cases,
  List, [], ◌∷◌, ◌++◌, length,
}
use aflgo.Doubles.{Doubles}
use aflgo.Queue.{after_slash, add_to_queue}
use aflgo.Queue.Refs.{IsScored}
use aflgo.Queue.Arrivals.{add_to_queue-IsScored}
use aflgo.Queue.Added.{add_to_queue-last}
use aflgo.Session.{Machine, Globals}
use aflgo.Calibration.{at_entry, update_entry, trace_cksum}
use aflgo.Calibration.Steady.{Finds, finds, IsSteady, carry-IsSteady, update_entry-IsSteady}
use aflgo.Saving.{queue_top, save_file, enqueue}
use aflgo.Saving.Names.{queue_name}

-- A name with a `/` has a part behind its last one.
has_slash :
    (folder rest : List ℕ) → (fn : List ℕ) × (after_slash (folder ++ (b'/' ∷ rest)) ≡ some fn)
unfolding after_slash
has_slash [] rest = elim (Option-cases (after_slash rest)) [
  | inl last ↦ rw (last, after_slash) (rest, refl)
  | inr more ↦ rw (more.1, after_slash) (more.0, refl)
]
has_slash (c ∷ folder) rest =
    let behind = has_slash folder rest in rw (behind.1, after_slash) (behind.0, refl)

-- Each file can be written.
abbrev pub IsWriting : {W : Type 0} → Machine W → Type 0
IsWriting {W} m = (fn mem : List ℕ) (w : W) → (w' : W) × (m.create fn mem w ≡ some w')

module _ {D W : Type 0} (d : Doubles D) (m : Machine W) where
  pub save_file-saved :
      (fn mem : List ℕ) (s : Globals D W)
      → IsWriting m
      → (w : W) × (save_file d m fn mem s ≡ some (record s { world = w }))
  unfolding save_file
  save_file-saved fn mem s writing =
      let made = writing fn mem s.world in rw (made.1, save_file) (made.0, refl)

  -- The state of a new entry in the queue.
  abbrev pub IsQueued : ℕ → Finds → List ℕ → Globals D W → Type 0
  IsQueued q f fn s =
      (queue_top d m s ≡ q)
      × IsScored d s.fuzzer
      × (length s.fuzzer.queue ≡ q + 1)
      × (finds s ≡ f)
      × ((at_entry d q s).fname ≡ fn)

  -- The entry behind `add_to_queue` is marked, and gets its checksum.
  marked-IsQueued :
      (q p hnb : ℕ) (f : Finds) (fn : List ℕ) (added : Globals D W)
      → IsQueued q f fn added
      → let covered =
          if hnb == 2
          then record (update_entry p (λ e. record e { has_new_cov = 1 }) added) {
            queued_with_cov = (added.queued_with_cov + 1) % 2 ^ 32;
          }
          else added in
        let cksum = trace_cksum covered in
        IsQueued q f fn (update_entry p (λ e. record e { exec_cksum = cksum }) covered)
  marked-IsQueued q p hnb f fn added h =
      let tries = (at_entry d q added).cal_failed in
      let steady : IsSteady d q (q + 1) tries fn f added = record {
        scored = h.1;
        same_length = h.2;
        same_finds = h.3;
        same_tries = refl;
        same_name = h.4;
      } in
      let fresh = update_entry p (λ e. record e { has_new_cov = 1 }) added in
      let covered = record fresh { queued_with_cov = (added.queued_with_cov + 1) % 2 ^ 32 } in
      let covered_steady = carry-IsSteady d q (q + 1) tries fn f fresh covered refl refl refl refl (
        update_entry-IsSteady d q (q + 1) tries fn f p (λ e. record e { has_new_cov = 1 }) added
          (λ e. (refl, refl, refl, refl)) steady) in
      elim (Bool-cases (hnb == 2)) [
        | inl new ↦ rw new (cksum_queued tries covered covered_steady)
        | inr old ↦ rw old (cksum_queued tries added steady)
      ]
    where
      cksum_queued :
          (tries : ℕ) (t : Globals D W)
          → IsSteady d q (q + 1) tries fn f t
          → IsQueued q f fn (update_entry p (λ e. record e { exec_cksum = trace_cksum t }) t)
      cksum_queued tries t k =
          let z =
            update_entry-IsSteady d q (q + 1) tries fn f p
              (λ e. record e { exec_cksum = trace_cksum t }) t (λ e. (refl, refl, refl, refl)) k in
          (omega (arith, z.same_length), z.scored, z.same_length, z.same_finds, z.same_name)

  pub enqueue-IsQueued :
      (hnb len : ℕ) (s : Globals D W)
      → IsScored d s.fuzzer
      → (fn : List ℕ) × IsQueued (length s.fuzzer.queue) (finds s) fn (enqueue d m hnb len s).1
        × ((rest : List ℕ) × (after_slash fn ≡ some rest))
  unfolding enqueue
  enqueue-IsQueued hnb len s scored =
      let clock = m.get_cur_time s.world in
      let fn = queue_name hnb clock.0 s in
      let stamp = m.get_cur_time clock.1 in
      let added = record s { world = stamp.1; fuzzer = add_to_queue d fn len 0 stamp.0 s.fuzzer } in
      let last = add_to_queue-last d fn len 0 stamp.0 s.fuzzer in
      (
        fn,
        marked-IsQueued (length s.fuzzer.queue) (queue_top d m added) hnb (finds s) fn added (
          omega (arith, last.0),
          add_to_queue-IsScored d fn len 0 stamp.0 s.fuzzer scored,
          last.0,
          refl,
          last.1,
        ),
        has_slash s.out_dir _,
      )
