-- ===== src/JobQueue/Memory/Defs.antt =====
-- What holds of a job and of the in-memory queue between two calls.
use wknowledge.Base.{ℕ, ◌≤◌, ◌<◌, Text, ◌≡◌, true, Option, none, length, All, is_some}
use wknowledge.JobQueue.{JobState, queued, active, completed, failed, cancelled, QueuedJob}
use wknowledge.JobQueue.Numbered.{Numbered}
use wknowledge.JobQueue.Memory.{MemoryQueue}

-- What the state of a job says of its attempts and of its lease.
abbrev pub IsConsistent : JobState → ℕ → ℕ → Option ℕ → Type 0
IsConsistent queued attempts max lease = (attempts < max) × (lease ≡ none)
IsConsistent active attempts max lease = (0 < attempts) × (attempts ≤ max) × (is_some lease ≡ true)
IsConsistent completed attempts max lease = (0 < attempts) × (attempts ≤ max) × (lease ≡ none)
IsConsistent failed attempts max lease = (attempts ≡ max) × (lease ≡ none)
IsConsistent cancelled attempts max lease = (attempts < max) × (lease ≡ none)

pub record IsValidJob {P : Type 0} (job : QueuedJob P) : Type 0 where
  pub at_least_one : 1 ≤ job.max_attempts
  pub at_most_twenty : job.max_attempts ≤ 20
  pub consistent : IsConsistent job.state job.attempts job.max_attempts job.leased_until

-- An entry of the map `jobs`.
abbrev pub IsValidEntry : {P : Type 0} → Text × QueuedJob P → Type 0
IsValidEntry e = (e.1.id ≡ e.0) × IsValidJob e.1

pub record IsValidQueue {P : Type 0} (s : MemoryQueue P) : Type 0 where
  pub numbered : Numbered 0 s.jobs
  pub counted : length s.jobs ≡ s.sequence
  pub entries : All IsValidEntry s.jobs
