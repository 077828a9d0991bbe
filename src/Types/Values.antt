-- ===== src/Types/Values.antt =====
-- JSON values, as JSON.parse returns them: what arrives on a socket, and what a tool's input or a
-- message's `meta` holds. A number is natural, or it is one that no check of the program accepts.
use agent_web_mvp.Prelude.{ℕ, String, Bool}

mutual
  pub data Json : Type 0 where
    null : Json
    boolean : Bool → Json
    natural : ℕ → Json
    other_number : Json
    string : String → Json
    array : Items → Json
    object : Fields → Json

  pub data Items : Type 0 where
    nil : Items
    cons : Json → Items → Items

  pub data Fields : Type 0 where
    end : Fields
    field : String → Json → Fields → Fields
