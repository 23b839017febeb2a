-- ===== src/Rtsp/Types.antt =====
-- RTSP messages. A string is the list of its bytes, without the terminator; a buffer has it.
-- Which parts of a message are allocated, and so to be freed, is left out.
pub mod Text
use tesla_moonlight_ubuntu.Base.{ℕ, Bool, ℤ, Option, List}

abbrev pub Text : Type 0
Text = List ℕ

-- `OPTION_ITEM` but its link
pub record OptionItem : Type 0 where
  pub name : Text
  pub content : Text

-- `type` and `message`
pub data Start : Type 0 where
  request : (command target : Text) → Start
  response : (status_code : ℤ) (status_string : Text) → Start

-- `RTSP_MESSAGE`. A payload that is NULL is `none`; its length counts where it is not.
pub record Message : Type 0 where
  pub begin : Start
  pub sequence_number : ℤ
  pub protocol : Text
  pub options : List OptionItem
  pub payload : Option Text
