-- ===== src/Socket/Parsed.antt =====
-- What `GroupEvent::parse` of ws.rs keeps of the frame that it reads.
use un_tzibbur_bot.Base.{
  String, ◌≡◌, refl, inl, inr, Option, none, some, Bool-cases, str_eq, eq_iff, if◌then◌else◌,
}
use un_tzibbur_bot.Models.{Role}
use un_tzibbur_bot.Entities.{MemberDto}
use un_tzibbur_bot.Json.{Fields, str_field, and_then, get}
use un_tzibbur_bot.Socket.{
  Decoders, GroupEvent, GroupSettings, kind, group_of, added_user, added, removed_user, removed,
  role_change, role_changed_to, update_of, parse_in, parse_merged, parse, merged, settings_of,
}

-- The event reads as `event`, in the group `g`.
abbrev Reads : String → Option String → GroupEvent → Type 0
Reads event g e = (kind e ≡ event) × (group_of e ≡ g)

unknown-Reads :
    (event : String) (g : Option String) (payload : Fields)
    → Reads event g (GroupEvent.unknown event g payload)
unfolding kind group_of
unknown-Reads event g payload = (refl, refl)

added_user-Reads :
    (g : String) (other : GroupEvent) (role : Option Role) (member : Option MemberDto)
    (user : Option String)
    → Reads "member-added" (some g) other
    → Reads "member-added" (some g) (added_user other g role member user)
unfolding added_user kind group_of
added_user-Reads g other role member none h = h
added_user-Reads g other role member (some user) h = (refl, refl)

removed_user-Reads :
    (g : String) (other : GroupEvent) (reason user : Option String)
    → Reads "member-removed" (some g) other
    → Reads "member-removed" (some g) (removed_user other g reason user)
unfolding removed_user kind group_of
removed_user-Reads g other reason none h = h
removed_user-Reads g other reason (some user) h = (refl, refl)

role_changed_to-Reads :
    (g : String) (other : GroupEvent) (user : Option String) (role : Option Role)
    → Reads "role-changed" (some g) other
    → Reads "role-changed" (some g) (role_changed_to other g user role)
unfolding role_changed_to kind group_of
role_changed_to-Reads g other (some user) (some role) h = (refl, refl)
role_changed_to-Reads g other (some user) none h = h
role_changed_to-Reads g other none role h = h

update_of-Reads :
    (g : String) (payload : Fields) (settings : GroupSettings)
    → Reads "group-updated" (some g) (update_of g payload settings)
unfolding update_of kind group_of
update_of-Reads g payload settings = (refl, refl)

-- One arm of the match: if the texts agree, the arm reads as its own text does.
chosen :
    (event text : String) (g : Option String) (arm : String → GroupEvent) (rest : GroupEvent)
    → Reads text g (arm text)
    → Reads event g rest
    → Reads event g (if str_eq event text then arm event else rest)
chosen event text g arm rest mine theirs = elim (Bool-cases (str_eq event text)) [
  | inl e ↦ let same : event ≡ text = (eq_iff event text).0 e in rw (e, same) mine
  | inr e ↦ rw e theirs
]

added-Reads :
    (g : String) (payload : Fields) (member : Option MemberDto)
    → Reads "member-added" (some g) (added "member-added" g payload member)
unfolding added
added-Reads g payload member = search (added_user-Reads, unknown-Reads)

removed-Reads :
    (g : String) (payload : Fields)
    → Reads "member-removed" (some g) (removed "member-removed" g payload)
unfolding removed
removed-Reads g payload = search (removed_user-Reads, unknown-Reads)

role_change-Reads :
    (g : String) (payload : Fields)
    → Reads "role-changed" (some g) (role_change "role-changed" g payload)
unfolding role_change
role_change-Reads g payload = search (role_changed_to-Reads, unknown-Reads)

parse_in-Reads :
    (d : Decoders) (event g : String) (payload : Fields)
    → Reads event (some g) (parse_in d event g payload)
unfolding parse_in kind group_of
parse_in-Reads d event g payload =
    let member = and_then (get "member" payload) d.member in
    let settings = settings_of (and_then (get "settings" payload) d.settings) in
    chosen event "member-added" (some g) (λ t. added t g payload member) _
      (added-Reads g payload member)
      (chosen event "member-removed" (some g) (λ t. removed t g payload) _ (removed-Reads g payload)
        (chosen event "role-changed" (some g) (λ t. role_change t g payload) _
          (role_change-Reads g payload)
          (chosen event "group-updated" (some g) (λ _. update_of g payload settings) _
            (update_of-Reads g payload settings)
            (chosen event "group-deleted" (some g) (λ _. GroupEvent.group_deleted g) _ (refl, refl)
              (unknown-Reads event (some g) payload)))))

parse_merged-Reads :
    (d : Decoders) (event : String) (g : Option String) (payload : Fields)
    → Reads event g (parse_merged d event g payload)
unfolding parse_merged kind group_of
parse_merged-Reads d event none payload = (refl, refl)
parse_merged-Reads d event (some g) payload = parse_in-Reads d event g payload

-- Whatever fields come with it, a parsed event keeps the text of the frame as its kind, and its
-- group is the `groupId` of the merged fields: nothing is read as an event of another kind or of
-- another group.
pub parse_reads :
    (d : Decoders) (event : String) (payload : Fields)
    → (kind (parse d event payload) ≡ event)
      × (group_of (parse d event payload) ≡ str_field "groupId" (merged payload))
unfolding parse
parse_reads d event payload = parse_merged-Reads d event _ (merged payload)
