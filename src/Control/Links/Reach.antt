-- ===== src/Control/Links/Reach.antt =====
-- Whatever the calls are, the claims of the broadcast stay one partial bijection.
use fallout_terminal.Common.{Option, none, some, List}
use fallout_terminal.Live.Runtime.{Service}
use fallout_terminal.Control.Commit.{Config, Coordinator, Effect}
use fallout_terminal.Control.Connections.{Attached, attach_subscription}
use fallout_terminal.Control.Links.{IsLinked}
use fallout_terminal.Control.Links.Actions.{
  dispatch_player_action-IsLinked, dispatch_player_action_for_recognition-IsLinked,
}
use fallout_terminal.Control.Links.Navigation.{
  resolve_terminal_navigation-IsLinked, replace_terminal_groups-IsLinked,
}
use fallout_terminal.Control.Links.Overseer.{
  rename_logical_session-IsLinked, assign_character-IsLinked, release_character-IsLinked,
  move_character-IsLinked, set_active_controller-IsLinked,
}
use fallout_terminal.Control.Links.Players.{
  select_character-IsLinked, select_character_for_recognition-IsLinked,
}
use fallout_terminal.Control.Links.Roster.{
  install_player_config-IsLinked, clear_player_config-IsLinked, add_character-IsLinked,
  update_character-IsLinked, delete_character-IsLinked,
}
use fallout_terminal.Control.Links.Sessions.{
  LinkedIf, attach_subscription-LinkedIf, detach_connection-IsLinked, start_broadcast-IsLinked,
  end_broadcast-IsLinked,
}
use fallout_terminal.Control.Links.Switch.{
  resolve_terminal_switch-IsLinked, update_live_terminal-IsLinked, refresh_active_terminal-IsLinked,
  reset_failed_puzzle-IsLinked, force_hack_success-IsLinked,
}
use fallout_terminal.Control.Links.Terminals.{
  request_terminal_activation-IsLinked, request_terminal_clear-IsLinked,
}
use fallout_terminal.Control.Operations.{
  Operation, install, uninstall, add, edit, remove, attach, detach, rename, start, finish, select,
  select_by, assign, free, hand_over, put_in_control, activate, clear, decide_switch, update,
  refresh, reset, force, decide_navigation, regroup, dispatch, dispatch_by, stop, attached_or,
  perform, Reach, created, later,
}

attached_or-IsLinked :
    (c : Coordinator) (done : Option (Coordinator × List Effect × Attached))
    → IsLinked c.runtime
    → LinkedIf done
    → IsLinked (attached_or c done).runtime
attached_or-IsLinked c none h kept = h
attached_or-IsLinked c (some done) h kept = kept

perform-IsLinked :
    (cfg : Config) (operation : Operation) (c : Coordinator)
    → IsLinked c.runtime
    → IsLinked (perform cfg operation c).runtime
unfolding perform
perform-IsLinked cfg (install handle present roster) c h =
    install_player_config-IsLinked cfg c h handle present roster
perform-IsLinked cfg uninstall c h = clear_player_config-IsLinked cfg c h
perform-IsLinked cfg (add payload) c h = add_character-IsLinked cfg c h payload
perform-IsLinked cfg (edit payload) c h = update_character-IsLinked cfg c h payload
perform-IsLinked cfg (remove payload) c h = delete_character-IsLinked cfg c h payload
perform-IsLinked cfg (attach connection handle) c h =
    attached_or-IsLinked c (attach_subscription cfg connection handle c) h
      (attach_subscription-LinkedIf cfg c h connection handle)
perform-IsLinked cfg (detach connection) c h = detach_connection-IsLinked cfg c h connection
perform-IsLinked cfg (rename id name) c h = rename_logical_session-IsLinked cfg c h id name
perform-IsLinked cfg start c h = start_broadcast-IsLinked cfg c h
perform-IsLinked cfg finish c h = end_broadcast-IsLinked cfg c h
perform-IsLinked cfg (select selection) c h = select_character-IsLinked cfg selection c h
perform-IsLinked cfg (select_by handle request broadcast character) c h =
    select_character_for_recognition-IsLinked cfg request broadcast character c h handle
perform-IsLinked cfg (assign session character) c h =
    assign_character-IsLinked cfg c h session character
perform-IsLinked cfg (free session) c h = release_character-IsLinked cfg c h session
perform-IsLinked cfg (hand_over character session) c h =
    move_character-IsLinked cfg c h character session
perform-IsLinked cfg (put_in_control session) c h = set_active_controller-IsLinked cfg c h session
perform-IsLinked cfg (activate target) c h = request_terminal_activation-IsLinked cfg target c h
perform-IsLinked cfg clear c h = request_terminal_clear-IsLinked cfg c h
perform-IsLinked cfg (decide_switch id choice) c h =
    resolve_terminal_switch-IsLinked cfg c h id choice
perform-IsLinked cfg (update tree intro) c h = update_live_terminal-IsLinked cfg c h tree intro
perform-IsLinked cfg (refresh target) c h = refresh_active_terminal-IsLinked cfg c h target
perform-IsLinked cfg (reset target) c h = reset_failed_puzzle-IsLinked cfg c h target
perform-IsLinked cfg force c h = force_hack_success-IsLinked cfg c h
perform-IsLinked cfg (decide_navigation id decision) c h =
    resolve_terminal_navigation-IsLinked cfg c h id decision
perform-IsLinked cfg (regroup ended candidate) c h =
    replace_terminal_groups-IsLinked cfg c h ended candidate
perform-IsLinked cfg (dispatch connection command) c h =
    dispatch_player_action-IsLinked cfg command c h connection
perform-IsLinked cfg (dispatch_by handle command) c h =
    dispatch_player_action_for_recognition-IsLinked cfg command c h handle
perform-IsLinked cfg stop c h = tt

-- Wherever the calls of the coordinator lead, from the one that `New` makes and in any order: if
-- there is a broadcast, then a session has a character exactly if the character has the session,
-- no session or character is claimed twice, the sessions with a character are recognized ones,
-- the characters are of the roster, and the session in control has a character.
pub reach-IsLinked :
    (cfg : Config) (live : Service) (c : Coordinator) → Reach cfg live c → IsLinked c.runtime
reach-IsLinked cfg live _ created = tt
reach-IsLinked cfg live _ (later {c} earlier operation) =
    perform-IsLinked cfg operation c (reach-IsLinked cfg live c earlier)
