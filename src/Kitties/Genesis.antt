-- ===== src/Kitties/Genesis.antt =====
-- `GenesisBuild` of pallets/kitties/src/lib.rs.
use substrate_kitties.Prelude.{[], Option, none, some}
use substrate_kitties.Frame.{ok, err}
use substrate_kitties.Kitties.Config.{Config}
use substrate_kitties.Kitties.State.{State, in_nft}

-- `build`: the class of the kitties is created, and its id kept. `none` is the panic of `expect`.
unfoldable pub build : (T : Config) → State T → Option (State T)
build T s =
    let (r, s') = in_nft (T.nft.create_class T.default_account []) s in
    elim r [ ok class ↦ some (record s' { class_id = class }) | err _ ↦ none ]
