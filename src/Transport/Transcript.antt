-- ===== src/Transport/Transcript.antt =====
-- What the loop of transport/stdio.rs comes to.
use mathlib.Core.List.{append_assoc, append-nil}
use mcp_shield.Prelude.{String, ◌≡◌, refl, sym, ap, ◌∙◌, List, [], ◌∷◌, ◌++◌, Result, ok, err}
use mcp_shield.JsonRpc.Message.{JsonRpcMessage}
use mcp_shield.JsonRpc.Parse.{to_value}
use mcp_shield.Scope.Enforcer.{ScopeEnforcer}
use mcp_shield.Router.State.{Moment, Router, Gateway}
use mcp_shield.Transport.Stdio.{Terminal, and_then, write_message, write_all_of, handle_line, run}

-- A standard output that keeps the texts written to it, in order.
pub record Keeps (t : Terminal (List String)) : Type 0 where
  pub write : (text : String) (w : List String) → t.write_all text w ≡ (w ++ text ∷ [], ok tt)
  pub flush : (w : List String) → t.flush w ≡ (w, ok tt)

abbrev pub read_lines : List (Moment × String) → List (Moment × Result String String)
read_lines [] = []
read_lines ((now, line) ∷ rest) = (now, ok line) ∷ read_lines rest

module _ {U C : Type 0} (r : Router U C) (t : Terminal (List String)) where
  -- A message as text, and the end of its line.
  abbrev pub printed : List JsonRpcMessage → List String
  printed [] = []
  printed (message ∷ rest) = t.print (to_value r.codec message) ∷ "\n" ∷ printed rest

  write_all_of-step :
      (message : JsonRpcMessage) (rest : List JsonRpcMessage) (w after : List String)
      → write_message r t message w ≡ (after, ok tt)
      → write_all_of r t (message ∷ rest) w ≡ write_all_of r t rest after
  unfolding write_all_of
  write_all_of-step message rest w after written =
      ap (λ p. elim p.1 [ ok _ ↦ write_all_of r t rest p.0 | err e ↦ (p.0, err e) ]) written

  module _ (keeps : Keeps t) where
    write_message-Keeps :
        (message : JsonRpcMessage) (w : List String)
        → write_message r t message w ≡ (w ++ printed (message ∷ []), ok tt)
    unfolding write_message and_then
    write_message-Keeps message w = rw (keeps.write (t.print (to_value r.codec message)) w) (
        rw (keeps.write "\n" (w ++ t.print (to_value r.codec message) ∷ []), keeps.flush)
          (rw append_assoc refl))

    write_all_of-Keeps :
        (messages : List JsonRpcMessage) (w : List String)
        → write_all_of r t messages w ≡ (w ++ printed messages, ok tt)
    unfolding write_all_of
    write_all_of-Keeps [] w = rw append-nil refl
    write_all_of-Keeps (message ∷ rest) w =
        write_all_of-step message rest w _ (write_message-Keeps message w)
        ∙ write_all_of-Keeps rest (w ++ printed (message ∷ []))
        ∙ ap (λ l. (l, ok tt)) (append_assoc w (printed (message ∷ [])) (printed rest))

  module _ (enforcer : ScopeEnforcer) where
    -- What the router keeps after the lines, and all the messages that answer them.
    abbrev pub transcript : List (Moment × String) → Gateway U C → Gateway U C × List JsonRpcMessage
    transcript [] g = (g, [])
    transcript ((now, line) ∷ rest) g =
        let (g, messages) = handle_line r t enforcer now line g in
        let (g, later) = transcript rest g in (g, messages ++ later)

    printed-append :
        (front back : List JsonRpcMessage) → printed (front ++ back) ≡ printed front ++ printed back
    printed-append [] back = refl
    printed-append (m ∷ front) back =
        ap (λ l. t.print (to_value r.codec m) ∷ "\n" ∷ l) (printed-append front back)

    run-step :
        (now : Moment) (line : String) (rest : List (Moment × Result String String))
        (g : Gateway U C) (w after : List String)
        → write_all_of r t (handle_line r t enforcer now line g).1 w ≡ (after, ok tt)
        → run r t enforcer ((now, ok line) ∷ rest) g w
          ≡ run r t enforcer rest (handle_line r t enforcer now line g).0 after
    unfolding run
    run-step now line rest g w after written =
        let g = (handle_line r t enforcer now line g).0 in
        ap (λ p. elim p.1 [ ok _ ↦ run r t enforcer rest g p.0 | err e ↦ ((g, p.0), err e) ])
          written

    -- Where the lines can be read and the standard output keeps what is written, the loop ends
    -- without an error after the last line, has answered each line in its order, and has written
    -- the answers one to a line and nothing else.
    pub run-transcript :
        (lines : List (Moment × String)) (g : Gateway U C) (w : List String)
        → Keeps t
        → run r t enforcer (read_lines lines) g w
          ≡ (((transcript lines g).0, w ++ printed (transcript lines g).1), ok tt)
    unfolding run
    run-transcript [] g w keeps = rw append-nil refl
    run-transcript ((now, line) ∷ rest) g w keeps =
        let (after, messages) = handle_line r t enforcer now line g in
        let (last, later) = transcript rest after in
        run-step now line (read_lines rest) g w _ (write_all_of-Keeps keeps messages w)
        ∙ run-transcript rest after (w ++ printed messages) keeps
        ∙ ap (λ l. ((last, l), ok tt))
            (append_assoc w (printed messages) (printed later)
              ∙ ap (λ l. w ++ l) (sym (printed-append messages later)))
