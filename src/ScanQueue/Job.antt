-- ===== src/ScanQueue/Job.antt =====
-- The jobs of backend/handlers/scan_queue.go and their keys.
use Prim.Native.String.{◌++◌}
use commitkube.Base.{String}

-- ScanMode
pub data Mode : Type 0 where
  full image : Mode

unfoldable pub mode_word : Mode → String
mode_word full = "full"
mode_word image = "image"

-- scanJob
pub record Job : Type 0 where
  pub repo : String
  pub mode : Mode

abbrev pub job_key : Job → String
job_key j = j.repo ++ ("|" ++ mode_word j.mode)
