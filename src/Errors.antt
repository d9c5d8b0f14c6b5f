-- ===== src/Errors.antt =====
-- model/errors.py: the exceptions that the library raises, and which of them belong to the class
-- hierarchies of `RtpError`, `RtcpError` and `CaptureError`. Message texts are not modelled, only the
-- numbers and the field names that they are made of.
use rtpkit.Common.{ℕ, Bool, true, false, List}

-- The `detail` of an `RtpExtensionError`.
pub data ExtensionDetail : Type 0 where
  header_truncated : (need got : ℕ) → ExtensionDetail
  data_truncated : (declared available : ℕ) → ExtensionDetail

-- The `field` of an `RtpBuildError` or an `RtcpBuildError`.
pub data Field : Type 0 where
  version payload_type sequence_number timestamp ssrc csrc : Field
  extension_profile extension_data padding : Field
  profile id_field data_field : Field
  fraction_lost cumulative_lost report_blocks chunks type_field text_field : Field
  sources reason subtype name_field padding_size : Field
  packet_field : Field

-- The `detail` of an `RtcpMalformedPacket`.
pub data MalformedDetail : Type 0 where
  empty_padding : MalformedDetail
  invalid_padding : (pad_count : ℕ) → MalformedDetail
  unknown_packet_type : (packet_type : ℕ) → MalformedDetail
  short_report_blocks : (needed rc got : ℕ) → MalformedDetail
  short_sr short_rr short_app : (got : ℕ) → MalformedDetail
  chunk_missing_ssrc chunk_missing_null item_header_truncated : MalformedDetail
  item_data_truncated chunk_padding_truncated : MalformedDetail
  short_bye : (needed sc got : ℕ) → MalformedDetail
  reason_truncated : MalformedDetail

-- The `detail` of a `PcapWriteError`, a `PcapngMalformedBlock` and an `EncapsulationError`.
pub data PcapWriteDetail : Type 0 where
  link_type_required : PcapWriteDetail
  link_type_differs : (index : ℕ) → PcapWriteDetail

pub data BlockDetail : Type 0 where
  no_section_header : BlockDetail
  block_unavailable : (block_total_length : ℕ) → BlockDetail
  short_idb short_epb short_spb : (got : ℕ) → BlockDetail
  short_packet : (declared available : ℕ) → BlockDetail
  unknown_interface : (iface_id : ℕ) → BlockDetail

pub data EncapsulationDetail : Type 0 where
  invalid_address ip_versions_differ invalid_port unsupported_link_type : EncapsulationDetail
  payload_too_long : (size limit : ℕ) → EncapsulationDetail

-- `index_error`, `key_error`, `assertion_error`, `value_error` and `struct_error` are Python's own;
-- `out_of_fuel` is no Python exception: a loop of the model ran out of rounds.
pub data Exception : Type 0 where
  rtp_buffer_too_short : (required actual : ℕ) → Exception
  rtp_invalid_version : ℕ → Exception
  rtp_padding_error : (padding_value available : ℕ) → Exception
  rtp_extension_error : ExtensionDetail → Exception
  rtp_build_error : Field → Exception
  rtcp_buffer_too_short : (required actual : ℕ) → Exception
  rtcp_invalid_version : ℕ → Exception
  rtcp_length_mismatch : (declared available : ℕ) → Exception
  rtcp_malformed_packet : MalformedDetail → Exception
  rtcp_build_error : Field → Exception
  pcap_write_error : PcapWriteDetail → Exception
  pcap_buffer_too_short : (required actual : ℕ) → Exception
  pcap_invalid_magic : List ℕ → Exception
  pcap_truncated_record : (declared available : ℕ) → Exception
  pcapng_buffer_too_short : (required actual : ℕ) → Exception
  pcapng_invalid_byte_order_magic : List ℕ → Exception
  pcapng_malformed_block : BlockDetail → Exception
  encapsulation_error : EncapsulationDetail → Exception
  index_error key_error assertion_error value_error : Exception
  struct_error : Exception
  out_of_fuel : Exception

-- `isinstance(e, RtcpError)`.
unfoldable pub is_rtcp_error : Exception → Bool
is_rtcp_error (rtcp_buffer_too_short _ _) = true
is_rtcp_error (rtcp_invalid_version _) = true
is_rtcp_error (rtcp_length_mismatch _ _) = true
is_rtcp_error (rtcp_malformed_packet _) = true
is_rtcp_error (rtcp_build_error _) = true
is_rtcp_error _ = false

-- `isinstance(e, CaptureError)`.
unfoldable pub is_capture_error : Exception → Bool
is_capture_error (pcap_write_error _) = true
is_capture_error (pcap_buffer_too_short _ _) = true
is_capture_error (pcap_invalid_magic _) = true
is_capture_error (pcap_truncated_record _ _) = true
is_capture_error (pcapng_buffer_too_short _ _) = true
is_capture_error (pcapng_invalid_byte_order_magic _) = true
is_capture_error (pcapng_malformed_block _) = true
is_capture_error _ = false

-- `isinstance(e, RtpError)`: every exception of the library.
unfoldable pub is_rtp_error : Exception → Bool
is_rtp_error index_error = false
is_rtp_error key_error = false
is_rtp_error assertion_error = false
is_rtp_error value_error = false
is_rtp_error struct_error = false
is_rtp_error out_of_fuel = false
is_rtp_error _ = true
