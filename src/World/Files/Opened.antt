-- ===== src/World/Files/Opened.antt =====
-- What a file that `File::open` has opened gives.
use reposync.Base.{◌≡◌, sym, ◌∙◌, Option, none, some, Text, arith}
use reposync.Base.Crates.{Reader}
use reposync.World.{World, Node, dir, file, pure, throw, with_world}
use reposync.World.Bind.{Returns, bind-Returns}
use reposync.World.Files.{components, node, fs_call, open_node, open_file}
use reposync.World.Files.Frame.{content, content_of, fs_call-SameFiles}

open_node-content :
    (o : Option Node) (r : Reader) (w w' : World)
    → Returns (open_node o) w r w'
    → r.failure ≡ none
    → content_of o ≡ some r.content
unfolding open_node throw pure
open_node-content none r w w' h f = ground arith
open_node-content (some dir) r w w' h f = ground arith
open_node-content (some (file b)) r w w' h f = ground arith

-- A file that was opened, and that is no directory, reads as its content.
pub open_file-content :
    (path : Text) (r : Reader) (w w' : World)
    → Returns (open_file path) w r w'
    → r.failure ≡ none
    → content w (components path) ≡ some r.content
unfolding open_file with_world
open_file-content path r w w' h f =
    let (_, _, opened) = bind-Returns fs_call _ w w' r h in
    sym ((fs_call-SameFiles.at w).contents (components path))
    ∙ open_node-content (node (fs_call w).1.fs (components path)) r (fs_call w).1 w' opened f
