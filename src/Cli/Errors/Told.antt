-- ===== src/Cli/Errors/Told.antt =====
-- Every message says something.
use jitterentropy_analysis_d.Prelude.{[], ◌≢◌}
use jitterentropy_analysis_d.Bridge.Text.{Bytes}
use jitterentropy_analysis_d.Cli.Text.{lines}
use jitterentropy_analysis_d.Cli.Errors.{
  usage, Message, settings_failed, init_failed, generation_failed, allocation_failed,
  no_bytes_asked, write_failed, message_text, message,
}

pub message-ne : (m : Message) → message m ≢ []
unfolding message message_text lines
message-ne (settings_failed code) e = cc
message-ne (init_failed code) e = cc
message-ne (generation_failed code) e = cc
message-ne (allocation_failed n) e = cc
message-ne no_bytes_asked e = cc
message-ne write_failed e = cc

pub usage-ne : (name : Bytes) → usage name ≢ []
unfolding usage lines
usage-ne name e = cc
