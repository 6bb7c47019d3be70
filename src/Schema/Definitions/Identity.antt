-- ===== src/Schema/Definitions/Identity.antt =====
-- `USER_SCHEMA` of src/schema/definitions.rs: a user's names and settings.
use scim_server.Common.{true, false}
use scim_server.Text.{codes}
use scim_server.Schema.Definitions.{
  AttributeDefinition, attribute_definition, no_attributes, attribute, string_type, reference,
  complex_type, read_only, read_write, always, default, no_uniqueness, server,
}

abbrev pub id : AttributeDefinition
id =
    attribute_definition (codes "id") string_type false "Unique identifier for the User" true true
      read_only always server no_attributes

abbrev pub external_id : AttributeDefinition
external_id =
    attribute_definition (codes "externalId") string_type false
      "External unique identifier for the User" false true read_write default no_uniqueness
      no_attributes

abbrev pub user_name : AttributeDefinition
user_name =
    attribute_definition (codes "userName") string_type false
      "Unique identifier for the User, typically used by the user to directly authenticate to the service provider"
      true false read_write default server no_attributes

abbrev pub name : AttributeDefinition
name =
    attribute_definition (codes "name") complex_type false "The components of the user's real name"
      false false read_write default no_uniqueness
      (attribute
        (attribute_definition (codes "formatted") string_type false
          "The full name, including all middle names, titles, and suffixes as appropriate" false
          false read_write default no_uniqueness no_attributes)
        (attribute
          (attribute_definition (codes "familyName") string_type false "The family name of the User"
            false false read_write default no_uniqueness no_attributes)
          (attribute
            (attribute_definition (codes "givenName") string_type false "The given name of the User"
              false false read_write default no_uniqueness no_attributes)
            (attribute
              (attribute_definition (codes "middleName") string_type false
                "The middle name(s) of the User" false false read_write default no_uniqueness
                no_attributes)
              (attribute
                (attribute_definition (codes "honorificPrefix") string_type false
                  "The honorific prefix(es) of the User" false false read_write default
                  no_uniqueness no_attributes)
                (attribute
                  (attribute_definition (codes "honorificSuffix") string_type false
                    "The honorific suffix(es) of the User" false false read_write default
                    no_uniqueness no_attributes)
                  (no_attributes)))))))

abbrev pub display_name : AttributeDefinition
display_name =
    attribute_definition (codes "displayName") string_type false
      "The name of the User, suitable for display to end-users" false false read_write default
      no_uniqueness no_attributes

abbrev pub nick_name : AttributeDefinition
nick_name =
    attribute_definition (codes "nickName") string_type false
      "The casual way to address the user in real life" false false read_write default no_uniqueness
      no_attributes

abbrev pub profile_url : AttributeDefinition
profile_url =
    attribute_definition (codes "profileUrl") reference false
      "A fully qualified URL pointing to the User's public profile" false false read_write default
      no_uniqueness no_attributes

abbrev pub title : AttributeDefinition
title =
    attribute_definition (codes "title") string_type false "The User's title" false false read_write
      default no_uniqueness no_attributes

abbrev pub user_type : AttributeDefinition
user_type =
    attribute_definition (codes "userType") string_type false
      "Used to identify the relationship between the organization and the user" false false
      read_write default no_uniqueness no_attributes

abbrev pub preferred_language : AttributeDefinition
preferred_language =
    attribute_definition (codes "preferredLanguage") string_type false
      "Indicates the User's preferred written or spoken language" false false read_write default
      no_uniqueness no_attributes

abbrev pub locale : AttributeDefinition
locale =
    attribute_definition (codes "locale") string_type false
      "Used to indicate the User's default location" false false read_write default no_uniqueness
      no_attributes

abbrev pub timezone : AttributeDefinition
timezone =
    attribute_definition (codes "timezone") string_type false
      "The User's time zone in IANA Time Zone database format" false false read_write default
      no_uniqueness no_attributes
