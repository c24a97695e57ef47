-- ===== src/Printd/Queue/Refine.antt =====
-- The job list of apue.3e/printer/printd.c is a sequence: add_job puts a job at its end, replace_job
-- at its head.
use play_apue.Prelude.{ℕ, ◌≡◌, refl, ap, sym, ◌∙◌, none, some, List, [], ◌∷◌, ◌++◌}
use play_apue.Printd.{Printreq}
use play_apue.Printd.Queue.{Job, Jobs, store, link_tail, add_job, link_head, replace_job}
use play_apue.Printd.Queue.Linked.{
  AllApart, AllApart-snoc, Apart, Entry, IsQueue, Linked, Linked-append, Linked-store, head_of,
  last_linked, node, set_next_lem, set_prev_lem, store_other, store_same, tail_of, tail_of-append,
}

link_tail_lem :
    (y : Entry) (s : Jobs) (xs : List Entry)
    → Linked s.cell none xs none
    → s.cell y.0 ≡ some (node (tail_of none xs) y none)
    → s.jobhead ≡ head_of xs none
    → AllApart xs
    → Apart y.0 xs
    → (s' : Jobs) × (link_tail y.0 (tail_of none xs) s ≡ some s') × IsQueue s' (xs ++ y ∷ [])
unfolding link_tail
link_tail_lem y s [] l c h d a =
    (_, refl, record { linked = (c, tt); at_head = refl; at_tail = refl; apart = (tt, tt) })
link_tail_lem y s (x ∷ xs) l c h d a =
    let (t, j, e, g, m, far) = last_linked s.cell none x xs none (some y.0) d l in
    let s' : Jobs = record s {
      cell = store s.cell t (record j { next = some y.0 });
      jobtail = some y.0;
    } in
    let c' : s'.cell y.0 ≡ some (node (tail_of none (x ∷ xs)) y none) =
      store_other s.cell t y.0 (record j { next = some y.0 }) (λ z. far y.0 a (sym z)) ∙ c in
    (
      s',
      rw e (rw (set_next_lem t (some y.0) s j g, link_tail) refl),
      record {
        linked = Linked-append s'.cell none (x ∷ xs) (y ∷ []) none m (c', tt);
        at_head = h;
        at_tail = sym (tail_of-append none (x ∷ xs) (y ∷ []));
        apart = AllApart-snoc (x ∷ xs) y d a;
      },
    )

-- add_job of a node that is not on the list puts the job at its end and keeps the others in order.
pub add_job_lem :
    (jp : ℕ) (req : Printreq) (jobid : ℕ) (s : Jobs) (xs : List Entry)
    → IsQueue s xs
    → Apart jp xs
    → (s' : Jobs) × (add_job jp req jobid s ≡ some s') × IsQueue s' (xs ++ (jp, jobid, req) ∷ [])
unfolding add_job
add_job_lem jp req jobid s xs q a =
    let j : Job = record { next = none; prev = s.jobtail; jobid = jobid; req = req } in
    let s1 : Jobs = record s { cell = store s.cell jp j } in
    let (s', e, r) =
      link_tail_lem (jp, jobid, req) s1 xs (Linked-store s.cell jp j none xs none a q.linked)
        (store_same s.cell jp j
          ∙ ap (λ t. some (record { next = none; prev = t; jobid = jobid; req = req })) q.at_tail)
        q.at_head q.apart a in
    (s', ap (λ t. link_tail jp t s1) q.at_tail ∙ e, r)

link_head_lem :
    (y : Entry) (s : Jobs) (xs : List Entry)
    → Linked s.cell none xs none
    → s.cell y.0 ≡ some (node none y (head_of xs none))
    → s.jobtail ≡ tail_of none xs
    → AllApart xs
    → Apart y.0 xs
    → (s' : Jobs) × (link_head y.0 (head_of xs none) s ≡ some s') × IsQueue s' (y ∷ xs)
unfolding link_head
link_head_lem y s [] l c h d a =
    (_, refl, record { linked = (c, tt); at_head = refl; at_tail = refl; apart = (tt, tt) })
link_head_lem y s (x ∷ xs) l c h d a =
    let j = node none x (head_of xs none) in
    let j' = node (some y.0) x (head_of xs none) in
    let s' : Jobs = record s { cell = store s.cell x.0 j'; jobhead = some y.0 } in
    (
      s',
      rw (set_prev_lem x.0 (some y.0) s j l.0, link_head) refl,
      record {
        linked = (
          store_other s.cell x.0 y.0 j' (λ z. a.0 (sym z)) ∙ c,
          (store_same s.cell x.0 j', Linked-store s.cell x.0 j' (some x.0) xs none d.0 l.1),
        );
        at_head = refl;
        at_tail = h;
        apart = (a, d);
      },
    )

replace_job_found :
    (jp : ℕ) (j : Job) (s : Jobs)
    → s.cell jp ≡ some j
    → replace_job jp s
      ≡ link_head jp s.jobhead
          (record s { cell = store s.cell jp (record j { prev = none; next = s.jobhead }) })
unfolding replace_job
replace_job_found jp j s c = rw (c, replace_job) refl

pub replace_job_lem :
    (jp : ℕ) (j : Job) (s : Jobs) (xs : List Entry)
    → IsQueue s xs
    → Apart jp xs
    → s.cell jp ≡ some j
    → (s' : Jobs) × (replace_job jp s ≡ some s') × IsQueue s' ((jp, j.jobid, j.req) ∷ xs)
replace_job_lem jp j s xs q a c =
    let j' : Job = record j { prev = none; next = s.jobhead } in
    let s1 : Jobs = record s { cell = store s.cell jp j' } in
    let (s', e, r) =
      link_head_lem (jp, j.jobid, j.req) s1 xs (Linked-store s.cell jp j' none xs none a q.linked)
        (store_same s.cell jp j'
          ∙ ap (λ t. some (record { next = t; prev = none; jobid = j.jobid; req = j.req }))
              q.at_head)
        q.at_tail q.apart a in
    (s', replace_job_found jp j s c ∙ ap (λ t. link_head jp t s1) q.at_head ∙ e, r)
