-- ===== src/Rgw/Laws.antt =====
-- ceph/rgw.go: what the gauges of the gateways show.
use ceph_exporter.Base.{
  ℕ, suc, ◌+◌, ◌≡◌, refl, ◌∙◌, Bool, false, not, Option, none, some, List, [], ◌∷◌, length, ℤ,
  ltb_ℤ, if◌then◌else◌, Text, codes, arith, Bool-cases, Option-cases, inl, inr,
}
use ceph_exporter.Float.{Float64, of_count}
use ceph_exporter.Prometheus.{GaugeVecs}
use ceph_exporter.Json.{Buffer}
use ceph_exporter.Rgw.{
  RgwTaskGc, RgwReshardOp, tasks_reply, ops_reply, before_dot, GcCounts, no_tasks, add_task,
  expires_at, count_tasks, RgwCollector, set_gc, refresh, collect,
}

-- The number of tasks that pass the test, and of their objects.
pub tasks_where : (RgwTaskGc → Bool) → List RgwTaskGc → ℕ
tasks_where p [] = 0
tasks_where p (t ∷ ts) = (if p t then 1 else 0) + tasks_where p ts

pub objects_where : (RgwTaskGc → Bool) → List RgwTaskGc → ℕ
objects_where p [] = 0
objects_where p (t ∷ ts) = (if p t then length t.objects else 0) + objects_where p ts

module _ (parse_time : Text → Option ℤ) (clock : ℕ → ℤ) where
  -- The time of the task is one that can be read, and is over.
  abbrev pub passed : Option ℤ → Bool
  passed none = false
  passed (some t) = ltb_ℤ t (clock 0)

  abbrev pub has_expired : RgwTaskGc → Bool
  has_expired task = passed (parse_time (before_dot (codes task.time)))

  abbrev pub is_pending : RgwTaskGc → Bool
  is_pending task = not (has_expired task)

  is_active_lem :
      ((n : ℕ) → ltb_ℤ (clock n) (clock 0) ≡ false)
      → (n : ℕ) (task : RgwTaskGc)
      → ltb_ℤ (expires_at parse_time clock n task) (clock 0) ≡ has_expired task
  unfolding expires_at
  is_active_lem mono n task = elim (Option-cases (parse_time (before_dot (codes task.time)))) [
    | inl e ↦ rw e (mono n)
    | inr (t, e) ↦ rw e refl
  ]

  -- The counts so far, and those of the tasks that are left.
  abbrev plus : GcCounts → List RgwTaskGc → GcCounts
  plus c ts = record {
    active_tasks = c.active_tasks + tasks_where has_expired ts;
    active_objects = c.active_objects + objects_where has_expired ts;
    pending_tasks = c.pending_tasks + tasks_where is_pending ts;
    pending_objects = c.pending_objects + objects_where is_pending ts;
  }

  count_tasks-plus :
      ((n : ℕ) → ltb_ℤ (clock n) (clock 0) ≡ false)
      → (n : ℕ) (c : GcCounts) (ts : List RgwTaskGc)
      → count_tasks parse_time clock n c ts ≡ plus c ts
  unfolding count_tasks tasks_where objects_where
  count_tasks-plus mono n c [] = ground arith
  count_tasks-plus mono n c (t ∷ ts) =
      count_tasks-plus mono (suc n)
        (add_task (ltb_ℤ (expires_at parse_time clock n t) (clock 0)) (length t.objects) c) ts
      ∙ rw (is_active_lem mono n t) (elim (Bool-cases (has_expired t)) [
        | inl e ↦ rw e (ground arith)
        | inr e ↦ rw e (ground arith)
      ])

  abbrev counted : List RgwTaskGc → GcCounts
  counted ts = record {
    active_tasks = tasks_where has_expired ts;
    active_objects = objects_where has_expired ts;
    pending_tasks = tasks_where is_pending ts;
    pending_objects = objects_where is_pending ts;
  }

  count_tasks-counted :
      ((n : ℕ) → ltb_ℤ (clock n) (clock 0) ≡ false)
      → (ts : List RgwTaskGc) → count_tasks parse_time clock 1 no_tasks ts ≡ counted ts
  count_tasks-counted mono ts = count_tasks-plus mono 1 no_tasks ts ∙ ground arith

  tasks_where-not :
      (p : RgwTaskGc → Bool) (ts : List RgwTaskGc)
      → tasks_where p ts + tasks_where (λ t. not (p t)) ts ≡ length ts
  unfolding tasks_where
  tasks_where-not p [] = refl
  tasks_where-not p (t ∷ ts) = ground (arith, tasks_where-not p ts)

  module _ (fl : Float64) (gv : GaugeVecs fl.Value) where
    abbrev pub Rgw : Type 0
    Rgw = RgwCollector fl gv

    abbrev Shows : gv.Vec → ℕ → Type 0
    Shows vec n = gv.get vec [] ≡ some (of_count fl n)

    abbrev pub ShowsTasks : Rgw → List RgwTaskGc → Type 0
    ShowsTasks r ts =
        Shows r.gc_active_tasks (tasks_where has_expired ts)
        × Shows r.gc_active_objects (objects_where has_expired ts)
        × Shows r.gc_pending_tasks (tasks_where is_pending ts)
        × Shows r.gc_pending_objects (objects_where is_pending ts)

    Shows-set : (vec : gv.Vec) (n : ℕ) → Shows (gv.set vec [] (of_count fl n)) n
    Shows-set vec n = gv.get-set vec [] [] (of_count fl n)

    set_gc-ShowsTasks :
        ((n : ℕ) → ltb_ℤ (clock n) (clock 0) ≡ false)
        → (ts : List RgwTaskGc) (r : Rgw)
        → ShowsTasks
            (set_gc parse_time clock fl gv (count_tasks parse_time clock 1 no_tasks ts) r)
            ts
    unfolding set_gc
    set_gc-ShowsTasks mono ts r = rw (count_tasks-counted mono ts) (
      Shows-set r.gc_active_tasks (tasks_where has_expired ts),
      Shows-set r.gc_active_objects (objects_where has_expired ts),
      Shows-set r.gc_pending_tasks (tasks_where is_pending ts),
      Shows-set r.gc_pending_objects (objects_where is_pending ts),
    )

    -- In the foreground mode, on a clock that does not go back during a collection, once the list of
    -- tasks is there the gauges show the number of the tasks whose time has passed and of their
    -- objects as active, and the rest as pending, also those whose time cannot be read; every task
    -- is one of the two. This is so whatever becomes of the list of reshard operations.
    pub collect-ShowsTasks :
        (gc reshard : Option Buffer) (r : Rgw) (ts : List RgwTaskGc)
        → ((n : ℕ) → ltb_ℤ (clock n) (clock 0) ≡ false)
        → r.background ≡ false
        → tasks_reply gc ≡ some ts
        → ShowsTasks (collect parse_time clock fl gv gc reshard r).0 ts
          × (tasks_where has_expired ts + tasks_where is_pending ts ≡ length ts)
    unfolding collect refresh
    collect-ShowsTasks gc reshard r ts mono b h = elim (Option-cases (ops_reply reshard)) [
      | inl e ↦ rw (b, h, e) (set_gc-ShowsTasks mono ts r, tasks_where-not has_expired ts)
      | inr (ops, e) ↦ rw (b, h, e) (set_gc-ShowsTasks mono ts r, tasks_where-not has_expired ts)
    ]

    -- The number of reshard operations that is shown, from the one shown before.
    abbrev pub reshards :
        Option (List RgwTaskGc) → Option (List RgwReshardOp) → Option fl.Value → Option fl.Value
    reshards none ops old = old
    reshards (some ts) none old = old
    reshards (some ts) (some ops) old = some (of_count fl (length ops))

    refresh-reshards :
        (tasks : Option (List RgwTaskGc)) (ops : Option (List RgwReshardOp)) (r : Rgw)
        → gv.get (refresh parse_time clock fl gv tasks ops r).0.active_reshards []
          ≡ reshards tasks ops (gv.get r.active_reshards [])
    unfolding refresh set_gc
    refresh-reshards none ops r = refl
    refresh-reshards (some ts) none r = refl
    refresh-reshards (some ts) (some ops) r = Shows-set r.active_reshards (length ops)
