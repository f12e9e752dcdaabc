-- ===== src/Sched/Metrics.antt =====
-- The metrics of Group6_Project2/README.md, and those of the two schedulers without I/O waits.
use os_lab_project.Prelude.{◌≡◌, ◌-ℤ◌}
use os_lab_project.Sched.{Process}

-- Turnaround = completion - arrival, waiting = turnaround - burst - I/O wait.
abbrev pub MeasuredWithIo : Process → Type 0
MeasuredWithIo p =
    (p.turnaround_time ≡ p.completion_time -ℤ p.arrival_time)
    × (p.waiting_time ≡ p.turnaround_time -ℤ p.burst_time -ℤ p.io_wait_time)

-- The I/O wait does not enter.
abbrev pub MeasuredWithoutIo : Process → Type 0
MeasuredWithoutIo p =
    (p.turnaround_time ≡ p.completion_time -ℤ p.arrival_time)
    × (p.waiting_time ≡ p.turnaround_time -ℤ p.burst_time)
