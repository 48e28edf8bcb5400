-- ===== src/Pipe/Types.antt =====
-- The data of a pipe: common/device.h, core/message.h, core/nop_types.h and the fields of
-- core/pipe_impl.h. Pointers are numbers; a user's callback is known by the number of its
-- operation.
use Prim.Native.String.{String}
use text.Mathlib.Text.{◌==◌ as str_eq}
use tensorpipe.Prelude.{ℕ, Bool, true, false, ◌&&◌, Option, none, some, List, ◌==◌}

-- `int`; `negsuc n` is -(n + 1).
pub data ℤ : Type 0 where
  pos : ℕ → ℤ
  negsuc : ℕ → ℤ

abbrev pub int_eq : ℤ → ℤ → Bool
int_eq (pos a) (pos b) = a == b
int_eq (negsuc a) (negsuc b) = a == b
int_eq _ _ = false

pub record Device : Type 0 where
  pub device_type : String
  pub index : ℤ

abbrev pub device_eq : Device → Device → Bool
device_eq a b = str_eq a.device_type b.device_type && int_eq a.index b.index

-- `tensorpipe::Buffer`, by its device and an address.
pub record Buffer : Type 0 where
  pub device : Device
  pub address : ℕ

pub record PayloadMessage : Type 0 where
  pub address : ℕ
  pub length : ℕ
  pub metadata : String

pub record TensorMessage : Type 0 where
  pub buffer : Buffer
  pub length : ℕ
  pub target_device : Option Device
  pub metadata : String

pub record Message : Type 0 where
  pub metadata : String
  pub payloads : List PayloadMessage
  pub tensors : List TensorMessage

pub record PayloadDescriptor : Type 0 where
  pub length : ℕ
  pub metadata : String

pub record TensorDescriptor : Type 0 where
  pub length : ℕ
  pub source_device : Device
  pub target_device : Option Device
  pub metadata : String

pub record Descriptor : Type 0 where
  pub metadata : String
  pub payloads : List PayloadDescriptor
  pub tensors : List TensorDescriptor

-- The addresses for the payloads, and the buffers for the tensors.
pub record Allocation : Type 0 where
  pub payloads : List ℕ
  pub tensors : List Buffer

-- `Error`: `none` is `Error::kSuccess`, and a number stands for a `BaseError`.
abbrev pub Error : Type 0
Error = Option ℕ

abbrev pub is_error : Error → Bool
is_error none = false
is_error (some e) = true

pub data ReadState : Type 0 where
  uninitialized reading_descriptor asking_for_allocation : ReadState
  asking_for_allocation_first_in_line reading_payloads_and_receiving_tensors finished : ReadState

abbrev pub read_number : ReadState → ℕ
read_number ReadState.uninitialized = 0
read_number ReadState.reading_descriptor = 1
read_number ReadState.asking_for_allocation = 2
read_number ReadState.asking_for_allocation_first_in_line = 3
read_number ReadState.reading_payloads_and_receiving_tensors = 4
read_number ReadState.finished = 5

pub record ReadOperation : Type 0 where
  pub sequence_number : ℕ
  pub state : ReadState
  pub done_reading_descriptor : Bool
  pub done_getting_allocation : Bool
  pub num_payloads_being_read : ℕ
  pub num_tensors_being_received : ℕ
  pub has_missing_target_devices : Bool
  pub descriptor : Descriptor
  pub allocation : Allocation

pub data WriteState : Type 0 where
  uninitialized writing_payloads_and_reading_target_devices : WriteState
  writing_payloads_and_sending_tensors finished : WriteState

abbrev pub write_number : WriteState → ℕ
write_number WriteState.uninitialized = 0
write_number WriteState.writing_payloads_and_reading_target_devices = 1
write_number WriteState.writing_payloads_and_sending_tensors = 2
write_number WriteState.finished = 3

-- `WriteOperation::Tensor`
pub record TensorBeingSent : Type 0 where
  pub source_device : Device
  pub target_device : Option Device

pub record WriteOperation : Type 0 where
  pub sequence_number : ℕ
  pub state : WriteState
  pub done_reading_descriptor_reply : Bool
  pub num_payloads_being_written : ℕ
  pub num_tensors_being_sent : ℕ
  pub has_missing_target_devices : Bool
  pub message : Message
  pub tensors : List TensorBeingSent

-- `PipeImpl::State`
pub data PipeState : Type 0 where
  initializing client_about_to_send_hello_and_brochure server_waiting_for_brochure : PipeState
  client_waiting_for_brochure_answer server_waiting_for_connections established : PipeState

abbrev pub is_established : PipeState → Bool
is_established PipeState.established = true
is_established _ = false

pub data ConnectionState : Type 0 where
  awaiting_descriptor awaiting_payloads : ConnectionState

-- What the pipe asks of its connections, channels and listener, and the user's callbacks that it
-- invokes. The first number is that of the operation.
pub data Call : Type 0 where
  write_descriptor : ℕ → Descriptor → Call
  write_payload : ℕ → ℕ → ℕ → ℕ → Call
  send_tensor : ℕ → ℕ → String → Buffer → ℕ → Call
  read_descriptor_reply : ℕ → Call
  read_descriptor : ℕ → Call
  read_payload : ℕ → ℕ → ℕ → ℕ → Call
  recv_tensor : ℕ → ℕ → String → Buffer → ℕ → Call
  write_descriptor_reply : ℕ → List Device → Call
  read_descriptor_callback : ℕ → Error → Descriptor → Call
  read_callback : ℕ → Error → Call
  write_callback : ℕ → Error → Call
  close_connections : Call
  unregister_connection_request : ℕ → Call
  unenroll : Call

-- The fields of `PipeImpl` but its two deques. `calls` is the history, latest first. Each
-- `*_checked` tells whether the checks of one kind have held so far: those of the order of the
-- callbacks, of what the connection is at, of the one message that awaits an allocation, of the
-- channel for a tensor, of the length of a reply; where one fails the program stops, and what the
-- model does afterwards means nothing.
pub record Core : Type 0 where
  pub state : PipeState
  pub error : Error
  pub channel_for_device_pair : List ((Device × Device) × String)
  pub registration_ids : List (ℕ × ℕ)
  pub channel_registration_ids : List (String × List ℕ)
  pub next_message_being_read : ℕ
  pub next_message_being_written : ℕ
  pub next_read_descriptor_callback_to_call : ℕ
  pub next_read_callback_to_call : ℕ
  pub next_write_callback_to_call : ℕ
  pub connection_state : ConnectionState
  pub message_being_read_from_connection : ℕ
  pub next_message_getting_allocation : Option ℕ
  pub calls : List Call
  pub read_descriptor_callbacks_checked : Bool
  pub read_callbacks_checked : Bool
  pub write_callbacks_checked : Bool
  pub connection_checked : Bool
  pub allocation_checked : Bool
  pub channels_checked : Bool
  pub reply_checked : Bool

-- What the handshake of a server waits for
abbrev pub registrations : Core → List (ℕ × ℕ) × List (String × List ℕ)
registrations s = (s.registration_ids, s.channel_registration_ids)

pub record Pipe : Type 0 where
  pub core : Core
  pub read_ops : List ReadOperation
  pub write_ops : List WriteOperation
