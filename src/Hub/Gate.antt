-- ===== src/Hub/Gate.antt =====
-- What has to hold before a command of the phone reaches a source.
use pi_pilot.Base.{String, ◌≡◌, ◌⊎◌, inl, true, false, ◌&&◌, some, nat_key, string_key}
use pi_pilot.Base.Json.{is_empty, as_text, Fields, lookup}
use pi_pilot.Lease.{OwnerLease}
use pi_pilot.Registry.State.{SourceDescriptor, Registry}
use pi_pilot.Hub.Messages.{is_one_of, is_read_only_source_command, is_desktop_mutation_command}
use pi_pilot.Hub.Commands.{
  MobileClient, Hub, Outcome, refuses, ignores, handles_ask, answers_dialog, reads_desktop,
  reads_file, forwards, type_of, session_mutating_commands, require_selected_source, require_lease,
  dialog_frame, is_desktop,
}

module _ {T : Type 0} where
  -- The phone holds the source's lease, and shows it.
  abbrev pub Owned : Hub T → MobileClient → String → Fields → Registry Fields T → Type 0
  Owned h c id e g = (lease : OwnerLease) × ((require_lease h c id e g).1 ≡ inl lease)

  -- A command that changes something may go on.
  pub record MayChange (h : Hub T) (c : MobileClient) (d : SourceDescriptor) (type : String)
      (e : Fields) (g : Registry Fields T) : Type 0 where
    pub owner : Owned h c d.id e g
    pub calm : (is_one_of type session_mutating_commands && h.is_streaming d.id) ≡ false
    pub supported :
        (is_desktop d ≡ false)
        ⊎ ((is_desktop_mutation_command type ≡ true) × (is_one_of type d.capabilities ≡ true))

  -- A frame may go on to the selected source, which is there.
  pub record MayForward (h : Hub T) (c : MobileClient) (e : Fields) (g : Registry Fields T)
      (k : String) (sent : Fields) : Type 0 where
    pub source : SourceDescriptor
    pub type : String
    pub is_selected : require_selected_source c g ≡ inl source
    pub online : source.connected ≡ true
    pub typed : type_of e ≡ some type
    pub same_source : k ≡ source.id
    pub same_frame : sent ≡ e
    pub rights : (is_read_only_source_command type ≡ true) ⊎ MayChange h c source type e g

  -- An answer to a dialog goes to the selected source, with the number of the dialog.
  pub record MayAnswer (h : Hub T) (c : MobileClient) (e : Fields) (g : Registry Fields T)
      (k : String) (frame : Fields) : Type 0 where
    pub source : SourceDescriptor
    pub dialog : String
    pub is_selected : require_selected_source c g ≡ inl source
    pub online : source.connected ≡ true
    pub asked : as_text (lookup "uiRequestId" e) ≡ some dialog
    pub named : is_empty dialog ≡ false
    pub answer : frame ≡ dialog_frame dialog e
    pub owner : Owned h c source.id e g
    pub same_source : k ≡ source.id
    pub process : is_desktop source ≡ false

  abbrev pub Permits : Hub T → MobileClient → Fields → Registry Fields T → Outcome → Type 0
  Permits h c e g (forwards k sent) = MayForward h c e g k sent
  Permits h c e g (answers_dialog k frame sent) = MayAnswer h c e g k frame
  Permits h c e g (refuses why) = Unit
  Permits h c e g ignores = Unit
  Permits h c e g handles_ask = Unit
  Permits h c e g (reads_desktop k sent) = Unit
  Permits h c e g (reads_file k sent) = Unit

  record Allows (h : Hub T) (c : MobileClient) (e : Fields) (g : Registry Fields T)
      (r : Registry Fields T × Outcome) : Type 0 where
    allows : Permits h c e g r.1

  record Fine (h : Hub T) (c : MobileClient) (e : Fields) (g : Registry Fields T) (o : Outcome)
      : Type 0 where
    fine : Permits h c e g o
