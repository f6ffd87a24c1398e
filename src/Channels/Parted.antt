-- ===== src/Channels/Parted.antt =====
-- PartChannel (src/channel.h) for a channel whose bot has a nick.
use child.Prelude.{◌≡◌, refl, Bool, true, false, some, if◌then◌else◌}
use child.Strings.{Str}
use child.Registry.{Registry, Chan, part, send}
use child.Channels.{channel_botname, part_if}

pub part_if-some :
    (eos : Bool) (r : Registry) (chan : Chan) (bot : Str)
    → channel_botname r chan ≡ some bot
    → part_if eos r chan ≡ some (if eos then send (part bot chan.channelname) r else r)
unfolding part_if
part_if-some true r chan bot name = rw name refl
part_if-some false r chan bot name = refl
