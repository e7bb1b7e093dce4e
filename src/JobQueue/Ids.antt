-- ===== src/JobQueue/Ids.antt =====
-- The ids that both JobQueue adapters give out: "job-" and the sequence number in eight digits.
use wknowledge.Base.{ℕ, Text, ◌++◌, ◌≡◌, ap, ◌∙◌, sym, units, drop}
use wknowledge.Base.Decimal.{to_string, pad_start, digits_value, pad_start-value}

unfoldable pub job_id : ℕ → Text
job_id sequence = units "job-" ++ pad_start 8 b'0' (to_string sequence)

-- The number can be read back from the id.
abbrev number_of : Text → ℕ
number_of id = digits_value 0 (drop 4 id)

number_of-job_id : (n : ℕ) → number_of (job_id n) ≡ n
unfolding job_id
number_of-job_id n = pad_start-value 8 n

-- Two sequence numbers never give one id.
pub job_id-injective : (m n : ℕ) → job_id m ≡ job_id n → m ≡ n
job_id-injective m n e = sym (number_of-job_id m) ∙ ap number_of e ∙ number_of-job_id n
