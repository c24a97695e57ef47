-- ===== src/Printd/Queue/Remove.antt =====
-- remove_job of apue.3e/printer/printd.c takes a job out of the sequence.
use play_apue.Prelude.{ℕ, ◌≡◌, refl, sym, ◌∙◌, Option, none, some, List, [], ◌∷◌, ◌++◌}
use play_apue.Printd.Queue.{Job, Jobs, store, replace_job, unlink_next, unlink_prev, remove_job}
use play_apue.Printd.Queue.Linked.{
  AllApart, Apart, Entry, IsQueue, Linked, Linked-append, Linked-split, Linked-store, head_of,
  head_of-append, last_linked, node, set_next_lem, set_prev_lem, store_other, store_same, tail_of,
  tail_of-append,
}
use play_apue.Printd.Queue.Apart.{All-map, AllApart-drop, AllApart-split, Linked-frame}
use play_apue.Printd.Queue.Refine.{replace_job_lem}

unlink_next_lem :
    (at p : Option ℕ) (s : Jobs) (ys : List Entry)
    → Linked s.cell at ys none
    → AllApart ys
    → s.jobtail ≡ tail_of at ys
    → (s' : Jobs) × (unlink_next (head_of ys none) p s ≡ some s')
      × Linked s'.cell p ys none
      × (s'.jobtail ≡ tail_of p ys)
      × (s'.jobhead ≡ s.jobhead)
      × ((a : ℕ) → Apart a ys → s'.cell a ≡ s.cell a)
unfolding unlink_next
unlink_next_lem at p s [] l d t = (_, refl, tt, refl, refl, λ a h. refl)
unlink_next_lem at p s (y ∷ ys) l d t =
    let j' = node p y (head_of ys none) in
    let s' : Jobs = record s { cell = store s.cell y.0 j' } in
    (
      s',
      set_prev_lem y.0 p s (node at y (head_of ys none)) l.0,
      (store_same s.cell y.0 j', Linked-store s.cell y.0 j' (some y.0) ys none d.0 l.1),
      t,
      refl,
      λ a h. store_other s.cell y.0 a j' (λ e. h.0 (sym e)),
    )

unlink_prev_lem :
    (at q : Option ℕ) (s : Jobs) (xs : List Entry)
    → Linked s.cell none xs at
    → AllApart xs
    → s.jobhead ≡ head_of xs at
    → (s' : Jobs) × (unlink_prev q (tail_of none xs) s ≡ some s')
      × Linked s'.cell none xs q
      × (s'.jobhead ≡ head_of xs q)
      × (s'.jobtail ≡ s.jobtail)
      × ((a : ℕ) → Apart a xs → s'.cell a ≡ s.cell a)
unfolding unlink_prev
unlink_prev_lem at q s [] l d h = (_, refl, tt, refl, refl, λ a k. refl)
unlink_prev_lem at q s (x ∷ xs) l d h =
    let (t, j, e, g, m, far) = last_linked s.cell none x xs at q d l in
    (
      record s { cell = store s.cell t (record j { next = q }) },
      rw e (rw (set_next_lem t q s j g, unlink_prev) refl),
      m,
      h,
      refl,
      λ a k. store_other s.cell t a (record j { next = q }) (λ z. far a k (sym z)),
    )

-- Where the parts of `remove_job` succeed.
remove_job_steps :
    (t : ℕ) (s s1 s2 : Jobs) (j : Job)
    → s.cell t ≡ some j
    → unlink_next j.next j.prev s ≡ some s1
    → s1.cell t ≡ some j
    → unlink_prev j.next j.prev s1 ≡ some s2
    → remove_job t s ≡ some s2
unfolding remove_job
remove_job_steps t s s1 s2 j c e c' e' = rw (c, remove_job) (rw e (rw c' e'))

-- On a heap that holds the list of jobs, remove_job of a job anywhere on it follows no null or
-- dangling pointer and leaves the list without that job, linked both ways, and the node itself as
-- it was.
pub remove_job_lem :
    (s : Jobs) (xs : List Entry) (x : Entry) (ys : List Entry)
    → IsQueue s (xs ++ x ∷ ys)
    → (s' : Jobs) × (remove_job x.0 s ≡ some s')
      × IsQueue s' (xs ++ ys)
      × (s'.cell x.0 ≡ s.cell x.0)
remove_job_lem s xs x ys q =
    let p = tail_of none xs in
    let (l, m) = Linked-split s.cell none xs (x ∷ ys) none q.linked in
    let (dx, dy, cross, cross') = AllApart-split xs (x ∷ ys) q.apart in
    let (s1, e1, l1, t1, h1, same1) =
      unlink_next_lem (some x.0) p s ys m.1 dy.1 (q.at_tail ∙ tail_of-append none xs (x ∷ ys)) in
    let lx : Linked s1.cell none xs (some x.0) =
      Linked-frame s.cell s1.cell none xs (some x.0)
        (All-map (λ z. Apart z.0 (x ∷ ys)) (λ z. s1.cell z.0 ≡ s.cell z.0) xs (λ z h. same1 z.0 h.1)
          cross)
        l in
    let (s2, e2, l2, h2, t2, same2) =
      unlink_prev_lem (some x.0) (head_of ys none) s1 xs lx dx
        (h1 ∙ q.at_head ∙ head_of-append xs (x ∷ ys) none) in
    let kept : s1.cell x.0 ≡ s.cell x.0 = same1 x.0 dy.0 in
    (
      s2,
      remove_job_steps x.0 s s1 s2 (node p x (head_of ys none)) m.0 e1 (kept ∙ m.0) e2,
      record {
        linked = Linked-append s2.cell none xs ys none l2 (
            Linked-frame s1.cell s2.cell p ys none
              (All-map (λ z. Apart z.0 xs) (λ z. s2.cell z.0 ≡ s1.cell z.0) ys (λ z h. same2 z.0 h)
                cross'.1)
              l1);
        at_head = h2 ∙ sym (head_of-append xs ys none);
        at_tail = t2 ∙ t1 ∙ sym (tail_of-append none xs ys);
        apart = AllApart-drop xs x ys q.apart;
      },
      same2 x.0 cross'.0 ∙ kept,
    )

-- A job that is taken from the head of the list and put back by replace_job leaves the list as it
-- was, with no job lost or moved.
pub replace_job-remove_job :
    (s : Jobs) (x : Entry) (ys : List Entry)
    → IsQueue s (x ∷ ys)
    → (s1 s2 : Jobs) × (remove_job x.0 s ≡ some s1)
      × IsQueue s1 ys
      × (replace_job x.0 s1 ≡ some s2)
      × IsQueue s2 (x ∷ ys)
replace_job-remove_job s x ys q =
    let (s1, e, r, same) = remove_job_lem s [] x ys q in
    let (s2, e', r') =
      replace_job_lem x.0 (node none x (head_of ys none)) s1 ys r q.apart.0 (same ∙ q.linked.0) in
    (s1, s2, e, r, e', r')
