-- ===== src/Transport/Stdio.antt =====
-- transport/stdio.rs: messages as lines.
use mcp_shield.Prelude.{String, not, some, List, [], ◌∷◌, Result, ok, err, ◌==◌, if◌then◌else◌}
use mcp_shield.Text.Defs.{format, contains_text, trim}
use mcp_shield.Json.{Value}
use mcp_shield.Error.{McpError, transport_error, parse_error, error_code, to_string}
use mcp_shield.JsonRpc.Message.{JsonRpcMessage, parse_error_response}
use mcp_shield.JsonRpc.Parse.{parse, to_value}
use mcp_shield.Scope.Enforcer.{ScopeEnforcer}
use mcp_shield.Router.State.{Moment, Router, Gateway}
use mcp_shield.Router.Route.{handle_message}
use mcp_shield.Transport.Sse.{error_message}

-- What the standard output and the reader and printer of JSON are asked for.
pub record Terminal (W : Type 0) : Type 0 where
  pub write_all : String → W → W × Result String (Unit {0})
  pub flush : W → W × Result String (Unit {0})
  pub read : String → Result String Value
  pub print : Value → String

-- `JsonRpcMessage::from_str`
unfoldable pub from_str :
    {U C W : Type 0} → Router U C → Terminal W → String → Result McpError JsonRpcMessage
unfolding parse
from_str r t text = elim (t.read text) [ err e ↦ err (parse_error e) | ok raw ↦ parse r.codec raw ]

module _ {U C W : Type 0} (r : Router U C) (t : Terminal W) where
  -- A step of `write_message`, and what follows it unless it fails.
  unfoldable pub and_then :
      String
      → W × Result String (Unit {0})
      → (W → W × Result McpError (Unit {0}))
      → W × Result McpError (Unit {0})
  unfolding format
  and_then failed (w, err e) rest = (w, err (transport_error (format (failed ∷ e ∷ []))))
  and_then failed (w, ok _) rest = rest w

  unfoldable pub write_message : JsonRpcMessage → W → W × Result McpError (Unit {0})
  unfolding and_then to_value
  write_message message w =
      and_then "Failed to write stdout: " (t.write_all (t.print (to_value r.codec message)) w) (λ w.
        and_then "Failed to write newline: " (t.write_all "\n" w)
          (λ w. and_then "Failed to flush stdout: " (t.flush w) (λ w. (w, ok tt))))

  -- What the result of a message writes.
  unfoldable pub responses : Result McpError JsonRpcMessage → List JsonRpcMessage
  unfolding contains_text to_string error_code
  responses (ok response) = response ∷ []
  responses (err e) =
      if not (contains_text "notification" (to_string e)) then error_message e ∷ [] else []

  unfoldable pub write_all_of : List JsonRpcMessage → W → W × Result McpError (Unit {0})
  unfolding write_message
  write_all_of [] w = (w, ok tt)
  write_all_of (message ∷ rest) w =
      let later = write_all_of rest in
      let (w, result) = write_message message w in
      elim result [ err e ↦ (w, err e) | ok _ ↦ later w ]

  module _ (enforcer : ScopeEnforcer) where
    -- One line: what the router keeps after it, and what is written.
    unfoldable pub handle_line : Moment → String → Gateway U C → Gateway U C × List JsonRpcMessage
    unfolding from_str responses trim parse_error_response
    handle_line now line g =
        let trimmed = trim line in
        if trimmed == "" then (g, []) else elim (from_str r t trimmed) [
          | err e ↦ (g, parse_error_response ∷ [])
          | ok message ↦
              let (g, result) = handle_message r now enforcer (some "stdio") message g in
              (g, responses result)
        ]

    -- The loop, over what `read_line` gives until the end of the input, each with its clock.
    unfoldable pub run :
        List (Moment × Result String String)
        → Gateway U C
        → W
        → (Gateway U C × W) × Result McpError (Unit {0})
    unfolding handle_line write_all_of format
    run [] g w = ((g, w), ok tt)
    run ((now, err e) ∷ rest) g w =
        ((g, w), err (transport_error (format ("Failed to read stdin: " ∷ e ∷ []))))
    run ((now, ok line) ∷ rest) g w =
        let (g, messages) = handle_line now line g in
        let later = run rest g in
        let (w, result) = write_all_of messages w in
        elim result [ err e ↦ ((g, w), err e) | ok _ ↦ later w ]
