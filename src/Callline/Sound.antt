-- ===== src/Callline/Sound.antt =====
-- What a line is that src/callline.c parses as a call.
use asterism_astools.Prelude.{◌≡◌}
use asterism_astools.Prelude.{◌∷◌, ◌++◌}
use asterism_astools.Prelude.{All}
use asterism_astools.Prelude.{Bytes}
use asterism_astools.Callline.{Call}
use asterism_astools.Callline.Shape.{IsBlank, IsSlug, IsVersionPart, IsObject}

-- The parts of the token and of the text behind it.
record Parts (token after : Bytes) (call : Call) : Type 0 where
  tool : Bytes
  version : Bytes
  space : Bytes
  rest : Bytes
  token_is : token ≡ (tool ++ version) ++ (b'.' ∷ call.command)
  after_is : after ≡ space ++ (call.args ++ rest)
  space_blank : All IsBlank space
  ref_is : call.ref ≡ tool ++ version
  tool_named : IsSlug tool
  versioned : IsVersionPart version
  command_named : IsSlug call.command
  args_closed : IsObject call.args
