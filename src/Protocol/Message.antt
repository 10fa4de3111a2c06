-- ===== src/Protocol/Message.antt =====
-- protocol/DnsMessage.h and the types of protocol/DnsParser.h. An enumerator stands for its value
-- by `type_value`, `class_value`, `opcode_value` and `code_value`; a uint16_t, uint8_t or uint32_t
-- field is a number, whose range is stated where it matters.
use dns_pro.Base.{ℕ, Bool, List}
use dns_pro.Protocol.Wire.{Bytes}
use dns_pro.Protocol.DomainName.{DomainName}

abbrev pub dns_header_size : ℕ
dns_header_size = 12

pub data RecordType : Type 0 where
  a ns cname soa ptr hinfo minfo mx txt aaaa opt : RecordType

abbrev pub type_value : RecordType → ℕ
type_value RecordType.a = 1
type_value RecordType.ns = 2
type_value RecordType.cname = 5
type_value RecordType.soa = 6
type_value RecordType.ptr = 12
type_value RecordType.hinfo = 13
type_value RecordType.minfo = 14
type_value RecordType.mx = 15
type_value RecordType.txt = 16
type_value RecordType.aaaa = 28
type_value RecordType.opt = 41

pub data RecordClass : Type 0 where
  internet none_class any : RecordClass

abbrev pub class_value : RecordClass → ℕ
class_value RecordClass.internet = 1
class_value RecordClass.none_class = 254
class_value RecordClass.any = 255

pub data Opcode : Type 0 where
  query iquery status : Opcode

abbrev pub opcode_value : Opcode → ℕ
opcode_value Opcode.query = 0
opcode_value Opcode.iquery = 1
opcode_value Opcode.status = 2

pub data ResponseCode : Type 0 where
  no_error form_err serv_fail nx_domain not_imp refused : ResponseCode

abbrev pub code_value : ResponseCode → ℕ
code_value ResponseCode.no_error = 0
code_value ResponseCode.form_err = 1
code_value ResponseCode.serv_fail = 2
code_value ResponseCode.nx_domain = 3
code_value ResponseCode.not_imp = 4
code_value ResponseCode.refused = 5

pub record Header : Type 0 where
  pub id : ℕ
  pub is_response : Bool
  pub opcode : ℕ
  pub authoritative_answer : Bool
  pub truncated : Bool
  pub recursion_desired : Bool
  pub recursion_available : Bool
  pub reserved_z : Bool
  pub authenticated_data : Bool
  pub checking_disabled : Bool
  pub response_code : ℕ

pub record Question : Type 0 where
  pub name : DomainName
  pub qtype : ℕ
  pub question_class : ℕ

pub record ResourceRecord : Type 0 where
  pub name : DomainName
  pub rtype : ℕ
  pub record_class : ℕ
  pub ttl : ℕ
  pub rdata_offset : ℕ
  pub rdata : Bytes

pub record Message : Type 0 where
  pub header : Header
  pub questions : List Question
  pub answers : List ResourceRecord
  pub authorities : List ResourceRecord
  pub additionals : List ResourceRecord
  pub wire_image : Bytes

pub data ParseErrorCode : Type 0 where
  packet_too_large unexpected_end too_many_questions too_many_records : ParseErrorCode
  invalid_label_type empty_label label_too_long name_too_long : ParseErrorCode
  truncated_compression_pointer compression_pointer_out_of_bounds : ParseErrorCode
  compression_pointer_into_header forward_compression_pointer compression_pointer_loop :
      ParseErrorCode
  too_many_compression_pointers invalid_rdata trailing_data : ParseErrorCode

pub record ParseError : Type 0 where
  pub code : ParseErrorCode
  pub offset : ℕ

pub record ParseLimits : Type 0 where
  pub maximum_packet_size : ℕ
  pub maximum_questions : ℕ
  pub maximum_records_per_section : ℕ
  pub maximum_total_records : ℕ
  pub maximum_compression_pointers : ℕ
  pub require_backward_pointers : Bool
  pub reject_trailing_data : Bool
