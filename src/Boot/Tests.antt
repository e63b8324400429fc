-- ===== src/Boot/Tests.antt =====
-- `gmk_submit` of src/boot.c to a kernel with two workers, the second of them parked.
use ggmk.Base.{refl, true, false, none, [], ◌∷◌, replicate}
use ggmk.Sched.Tests.{high, weak, sched, model, sched-Holding}
use ggmk.Sched.Rq.Push.{caps}
use ggmk.Sched.Enqueue.{stamped}
use ggmk.Sched.Enqueue.Spec
use ggmk.Sched.Enqueue.Refine.{watermarks}
use ggmk.Boot.{Kernel, submit}
use ggmk.Boot.Submit.{Submits, submit_lem}

abbrev kernel : Kernel
kernel = record {
  running = true;
  tick = 4;
  sched = sched;
  metrics = record { global = replicate 16 0; per_tenant = replicate 16 0 ∷ []; n_tenants = 1 };
  workers =
      record { id = 0; running = true; parked = false; tasks_dispatched = 0; tick = 4 }
      ∷ record { id = 1; running = true; parked = true; tasks_dispatched = 0; tick = 4 }
      ∷ [];
}

submit_lem_example :
    Submits
      (submit weak kernel high)
      kernel
      (stamped sched high)
      (Spec.enqueue (watermarks sched) (caps sched.rq) model (stamped sched high) none)
submit_lem_example = submit_lem weak tt kernel model high refl sched-Holding
