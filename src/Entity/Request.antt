-- ===== src/Entity/Request.antt =====
-- internal/entity/porting_request.go: the vocabulary of a porting request.
-- A string type with listed constants is a data type with a constructor for each constant and
-- `other` for every other string, since the database constrains none of these columns.
use numflex_sandbox.Prelude.{Bool, false, true, ℕ}

-- A string that the program only stores and compares (an identifier, a number, a comment, an OTP
-- code): a natural number, 0 for the empty string.
abbrev pub Text : Type 0
Text = ℕ

abbrev pub empty_text : Text
empty_text = 0

-- An instant or a duration, in nanoseconds.
abbrev pub Time : Type 0
Time = ℕ

pub data Step : Type 0 where
  acceptance deactivation activation confirmation completion : Step
  other : Text → Step

pub data RequestStatus : Type 0 where
  in_progress completed cancelled rejected : RequestStatus
  other : Text → RequestStatus

pub data StepStatus : Type 0 where
  step_in_progress step_completed step_expired : StepStatus
  other : Text → StepStatus

pub data RequestType : Type 0 where
  porting restitution reverse : RequestType
  other : Text → RequestType

pub data SubscriberType : Type 0 where
  individual enterprise : SubscriberType
  other : Text → SubscriberType

pub data Role : Type 0 where
  role_source role_recipient role_all role_artp : Role

pub record PortingRequest : Type 0 where
  pub id : Text
  pub msisdn : Text
  pub request_type : RequestType
  pub subscriber_type : SubscriberType
  pub status : RequestStatus
  pub current_step : Step
  pub current_step_status : StepStatus
  pub source_operator_id : Text
  pub recipient_operator_id : Text
  pub creator_operator_id : Text
  pub pending_transition : Bool

-- The comparisons that the code makes with a constant.
abbrev pub is_in_progress : RequestStatus → Bool
is_in_progress in_progress = true
is_in_progress _ = false

abbrev pub is_acceptance : Step → Bool
is_acceptance acceptance = true
is_acceptance _ = false

abbrev pub is_activation : Step → Bool
is_activation activation = true
is_activation _ = false

abbrev pub is_confirmation : Step → Bool
is_confirmation confirmation = true
is_confirmation _ = false

abbrev pub is_completion : Step → Bool
is_completion completion = true
is_completion _ = false

abbrev pub is_porting : RequestType → Bool
is_porting porting = true
is_porting _ = false

abbrev pub is_reverse : RequestType → Bool
is_reverse reverse = true
is_reverse _ = false

abbrev pub is_enterprise : SubscriberType → Bool
is_enterprise enterprise = true
is_enterprise _ = false
