-- ===== src/Errors.antt =====
-- src/crawllmer/core/errors.py: the exceptions that the modelled code raises, with their texts.
-- `library` is an exception of a library, with its text; a run's id is printed by `show_id`.
use geo_optimizer.Base.{Option, codes_eq, if◌then◌else◌, nat_eq, none, some, ℕ, ◌++◌, ◌==◌}
use geo_optimizer.Text.{Text, lit, decimal}
use geo_optimizer.Models.{WorkItemState, WorkStage, stage_value, state_value}

pub data Error : Type 0 where
  library : Text → Error
  invalid_transition : (state next_state : WorkItemState) → Error
  invalid_input : (field reason : Text) → Error
  run_not_found : (run_id : ℕ) → Error
  pipeline_processing : (stage : WorkStage) (run_id : ℕ) (cause : Error) → Error

-- A violated primary key, as SQLAlchemy reports it.
abbrev pub integrity_error : Error
integrity_error = library (lit "IntegrityError")

pub data Result {ℓ} (A : Type ℓ) : Type ℓ where
  ok : A → Result A
  err : Error → Result A

-- `str(exc)`
unfoldable pub describe : (ℕ → Text) → Error → Text
describe show_id (library message) = message
describe show_id (invalid_transition state next_state) =
    lit "invalid transition " ++ (state_value state ++ (lit " -> " ++ state_value next_state))
describe show_id (invalid_input field reason) = lit "invalid " ++ (field ++ (lit ": " ++ reason))
describe show_id (run_not_found run_id) = lit "run not found: " ++ show_id run_id
describe show_id (pipeline_processing stage run_id cause) =
    lit "stage '"
    ++ (stage_value stage
        ++ (lit "' failed for run " ++ (show_id run_id ++ (lit ": " ++ describe show_id cause))))

-- The exceptions of the hierarchy that nothing in the program raises yet.
pub data SpareError : Type 0 where
  missing_config : (field_name : Text) → SpareError
  crawl_fetch : (url : Text) (status_code : Option ℕ) (reason : Text) → SpareError
  content_extraction : (url reason : Text) → SpareError
  generation : (run_id : ℕ) (reason : Text) → SpareError

-- A status code of 0 counts as none.
unfoldable pub fetch_detail : Option ℕ → Text → Text
fetch_detail none reason = reason
fetch_detail (some status_code) reason =
    if status_code == 0 then reason else lit "status " ++ decimal status_code

unfoldable pub missing_config_text : Text → Text
missing_config_text field_name = lit "missing or invalid config: " ++ field_name

unfoldable pub describe_spare : (ℕ → Text) → SpareError → Text
unfolding fetch_detail missing_config_text
describe_spare show_id (missing_config field_name) = missing_config_text field_name
describe_spare show_id (crawl_fetch url status_code reason) =
    lit "fetch failed for " ++ (url ++ (lit ": " ++ fetch_detail status_code reason))
describe_spare show_id (content_extraction url reason) =
    lit "extraction failed for " ++ (url ++ (lit ": " ++ reason))
describe_spare show_id (generation run_id reason) =
    lit "generation failed for run " ++ (show_id run_id ++ (lit ": " ++ reason))
