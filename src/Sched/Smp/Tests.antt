-- ===== src/Sched/Smp/Tests.antt =====
-- Tests of crates/rvm-sched/src/smp.rs. Two processors: both come online, one takes a partition,
-- and then the other.
use rvm.Prelude.{ℕ, ◌≡◌, ◌≢◌, refl, arith, false, none, some, ok, is_ok}
use rvm.Sched.Smp.{
  SmpCoordinator, new, offline_from, state, bring_online, assign_partition, find_idle_cpu, first_id,
}
use rvm.Sched.Smp.Flags.{IsSmp, Reach, here, next, onlines, assigns, Reach-new-IsSmp}
use rvm.Sched.Smp.Idle.{find_idle_cpu-assign, find_idle_cpu-none}

abbrev both : SmpCoordinator
both = (bring_online (bring_online (new 2 2) 0).0 1).0

abbrev busy : SmpCoordinator
busy = (assign_partition both 0 7).0

abbrev full : SmpCoordinator
full = (assign_partition busy 1 8).0

busy_reached : Reach (new 2 2) busy
busy_reached = next (next (next here (onlines 0 refl)) (onlines 1 refl)) (assigns 0 7 refl)

full_reached : Reach (new 2 2) full
full_reached = next busy_reached (assigns 1 8 refl)

idle_cpus : (find_idle_cpu busy ≡ some 1) × (find_idle_cpu full ≡ none)
unfolding find_idle_cpu first_id assign_partition bring_online new offline_from
idle_cpus = (refl, refl)

Reach-new-IsSmp_example : IsSmp 2 full
Reach-new-IsSmp_example = Reach-new-IsSmp 2 2 full full_reached

find_idle_cpu-assign_example :
    ((assign_partition busy 1 8).1 ≡ ok tt)
    × ((state full 1).current_partition ≡ some 8)
    × ((j : ℕ) → j ≢ 1 → state full j ≡ state busy j)
find_idle_cpu-assign_example =
    find_idle_cpu-assign 2 2 busy 1 8 (omega arith) busy_reached idle_cpus.0

find_idle_cpu-none_example : is_ok (assign_partition full 0 9).1 ≡ false
find_idle_cpu-none_example = find_idle_cpu-none 2 2 full 0 9 full_reached idle_cpus.1
